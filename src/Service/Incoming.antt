-- ===== src/Service/Incoming.antt =====
-- Blocks that a peer sends, against a well-formed tree: those that are new to it, and those that it
-- has, as service.rs goes through them.
use ironcoin.Base.{
  ℕ, suc, ◌+◌, ◌<◌, ◌^◌, ◌≡◌, ◌≢◌, refl, sym, ◌∙◌, ap, subst, some, List, [], ◌∷◌, All, arith, inl,
  inr, Bool-cases,
}
use ironcoin.Base.Run.{ok}
use ironcoin.Block.{decode_hash, get_diff_height, get_height}
use ironcoin.Blocktree.Growth.{IsInserted}
use ironcoin.Blocktree.Insertion.{IsFresh, stored_unique, stored-apart}
use ironcoin.Blocktree.Keys.{get_block_diff}
use ironcoin.Blocktree.Reach.{Continues}
use ironcoin.Blocktree.Tree.{IsStored, IsTree, States}
use ironcoin.Crypto.HashDigest.{HashDigest, digest_beq, digest_beq_iff}
use ironcoin.External.{Base64, Sodium}
use ironcoin.Message.Codecs.{Codecs}
use ironcoin.Message.Ledger.{BlockWithDiff, HashedBlock}
use ironcoin.Store.{KeyValueStore}

module _ {S : Type 0} (kv : KeyValueStore S) ⦃sodium : Sodium⦄ ⦃base64 : Base64⦄
    ⦃codecs : Codecs⦄ where
  -- The heights of the tree leave room for so many more.
  abbrev pub HasRoomFor : ℕ → S → Type 0
  HasRoomFor n s =
      (h : HashDigest) (d : BlockWithDiff) → IsStored kv s h d → get_diff_height d + n < 2 ^ 32

  -- Blocks whose hashes are not in the tree, and differ from one another.
  abbrev pub AreNew : S → List HashedBlock → Type 0
  AreNew s [] = Unit {0}
  AreNew s (block ∷ blocks) =
      ((h : HashDigest) → decode_hash block ≡ ok h → IsFresh kv s h)
      × All (λ other. (h : HashDigest) → decode_hash block ≡ ok h → decode_hash other ≢ ok h) blocks
      × AreNew s blocks

  -- The tree has the block.
  pub record HasBlock (s : S) (block : HashedBlock) : Type 0 where
    pub hash : HashDigest
    pub named : decode_hash block ≡ ok hash
    pub diff : BlockWithDiff
    pub stored : IsStored kv s hash diff
    pub height : get_diff_height diff ≡ get_height block

  pub HasBlock-Continues :
      (s s' : S) (genesis : HashDigest) (state : States) (block : HashedBlock)
      → Continues kv s genesis state s'
      → HasBlock s block
      → HasBlock s' block
  HasBlock-Continues s s' genesis state block c b = record {
    hash = b.hash;
    named = b.named;
    diff = b.diff;
    stored = (c.keeps b.hash b.diff b.stored).0;
    height = b.height;
  }

  module _ (s s' : S) (genesis head : HashDigest) (state : States)
      (tree : IsTree kv s genesis head state) (block : HashedBlock)
      (i : IsInserted kv s genesis head state tree block s') where
    pub inserted-HasBlock : HasBlock s' block
    unfolding get_diff_height
    inserted-HasBlock = record {
      hash = i.hash;
      named = i.named;
      diff = record { hashed_block = some block; diff = i.patches };
      stored = i.stored;
      height = refl;
    }

    pub inserted-AreNew :
        (blocks : List HashedBlock)
        → All
            (λ other. (h : HashDigest) → decode_hash block ≡ ok h → decode_hash other ≢ ok h)
            blocks
        → AreNew s blocks
        → AreNew s' blocks
    inserted-AreNew [] apart new = tt
    inserted-AreNew (other ∷ blocks) (apart, rest) (fresh, others, new) = (
      λ h named d stored.
          let distinct : i.hash ≢ h = λ e.
            apart i.hash i.named
              (subst (λ (k : HashDigest). decode_hash other ≡ ok k) (sym e) named) in
          fresh h named d (sym (i.others h distinct) ∙ stored),
      others,
      inserted-AreNew blocks rest new,
    )

    pub inserted-HasRoomFor : (n : ℕ) → IsFresh kv s i.hash → HasRoomFor (suc n) s → HasRoomFor n s'
    inserted-HasRoomFor n fresh room k d stored = elim (Bool-cases (digest_beq i.hash k)) [
      | inr unequal ↦
          let old =
            room k d
              (sym (i.others k (λ e. cc (sym unequal ∙ (digest_beq_iff i.hash k).1 e))) ∙ stored) in
          omega arith
      | inl same ↦
          let here = (digest_beq_iff i.hash k).0 same in
          let p = i.grown.blocks.parents k d stored (λ e.
            stored-apart kv s i.hash genesis tree.blocks.genesis_diff fresh
              tree.blocks.genesis_stored (here ∙ e)) in
          let below : i.hash ≢ p.parent = λ e.
            let twice : d ≡ p.parent_diff = stored_unique (
              sym stored
              ∙ ap (λ (h : HashDigest). get_block_diff kv h s') (sym here ∙ e)
              ∙ p.stored) in
            absurd (omega (arith, p.height, ap get_diff_height twice)) in
          let old = room p.parent p.parent_diff (sym (i.others p.parent below) ∙ p.stored) in
          omega (arith, p.height)
    ]
