-- ===== src/Service/Staked.antt =====
-- `on_successful_stake` of service.rs in a well-formed tree: the block of a template.
use ironcoin.Base.{ℕ, ◌≡◌, refl, sym, ◌∙◌, ap, subst, List, arith, inl, inr, ◌⊎◌, Bytes}
use ironcoin.Base.Run.{Run, ok, refuse, IroncError, Panic, err, panic, ok_or, Run-cases}
use ironcoin.Base.Action.{and_then, lift, Action, and_then-refuse}
use ironcoin.Block.{
  compute_hash, decode_hash, decode_previous, get_block, sign_block, decode_diff_previous,
  decode_staker_pk,
}
use ironcoin.Blocktree.Growth.{insert_block-IsInserted}
use ironcoin.Blocktree.Insertion.{HasRoom, IsFresh, stored-apart, extended, stored_unique}
use ironcoin.Blocktree.Keys
use ironcoin.Blocktree.Keys.{get_head_hash}
use ironcoin.Blocktree.Laws.{HasLaws}
use ironcoin.Blocktree.Moves.{set_head-IsTree}
use ironcoin.Blocktree.Reach.{Continues, Reaches, Reaches-Continues, Step}
use ironcoin.Blocktree.Store as Tree
use ironcoin.Blocktree.Tree.{IsTree, States}
use ironcoin.Crypto.HashDigest.{HashDigest}
use ironcoin.Crypto.Sizes.{decoded-sized}
use ironcoin.External.{Base64, Sodium}
use ironcoin.Message.Codecs.{Codecs}
use ironcoin.Message.Ledger.{BlockWithDiff, HashedBlock, Transaction, get_bytes}
use ironcoin.Service.Heads.{
  drain_pending, make_staked_block, on_successful_stake, publish_new_head, set_head, stake_block,
}
use ironcoin.Service.Pending.{prune_invalid_transactions}
use ironcoin.Service.Settled.{
  IsSettled, IsSettled-trans, prune-IsSettled, same-IsSettled, and_then-blocktree,
}
use ironcoin.Service.State.{IroncService, read_blocktree, on_blocktree}
use ironcoin.Staking.{BlockTemplate}
use ironcoin.Store.{KeyValueStore}

module _ ⦃sodium : Sodium⦄ ⦃codecs : Codecs⦄ where
  stake_block-previous :
      (template : BlockTemplate) (height : ℕ) (txs : List Transaction) (block : HashedBlock)
      → stake_block template height txs ≡ ok block
      → get_bytes (get_block block).previous ≡ template.previous_block.bytes
  unfolding stake_block get_block sign_block compute_hash
  stake_block-previous template height txs block e = ground arith

module _ {S Socket : Type 0} (kv : KeyValueStore S) ⦃sodium : Sodium⦄ ⦃base64 : Base64⦄
    ⦃codecs : Codecs⦄ where
  -- A staked block, if there is one, names the block of the template as the one before it; the
  -- block tree stays as it is.
  record IsMade (template : BlockTemplate) (service : IroncService S Socket)
      (run : Run HashedBlock × IroncService S Socket) : Type 0 where
    settled : IsSettled service run.1
    previous :
        (block : HashedBlock)
        → run.0 ≡ ok block
        → get_bytes (get_block block).previous ≡ template.previous_block.bytes

  and_then-IsMade :
      {A : Type 0} (template : BlockTemplate) (service : IroncService S Socket)
      (p : Run A × IroncService S Socket)
      (f : A → IroncService S Socket → Run HashedBlock × IroncService S Socket)
      → IsSettled service p.1
      → ((a : A) (s : IroncService S Socket)
          → IsSettled service s
          → IsMade template service (f a s))
      → IsMade template service (and_then p f)
  and_then-IsMade template service (ok a, s) f i next = next a s i
  and_then-IsMade template service (err e, s) f i next = record {
    settled = i;
    previous = λ b e'. cc;
  }
  and_then-IsMade template service (panic c, s) f i next = record {
    settled = i;
    previous = λ b e'. cc;
  }

  make_staked_block-IsMade :
      (template : BlockTemplate) (service : IroncService S Socket)
      → IsMade template service (make_staked_block kv template service)
  unfolding make_staked_block drain_pending
  make_staked_block-IsMade template service =
      and_then-IsMade template service (read_blocktree (get_head_hash kv) service) _
        (same-IsSettled service)
        (λ _ s i.
          and_then-IsMade template service
            (read_blocktree (Keys.get_block kv template.previous_block) s) _ i
            (λ found s i.
              and_then-IsMade template service
                (lift
                  (ok_or found (IroncError.staked_previous_missing template.previous_block.bytes))
                  s)
                _ i
                (λ previous s i.
                  and_then-IsMade template service (prune_invalid_transactions kv s) _
                    (IsSettled-trans service s _ i (prune-IsSettled kv s))
                    (λ _ s i. record {
                      settled = record {
                        blocktree = i.blocktree;
                        socket = i.socket;
                        endpoint = i.endpoint;
                      };
                      previous = λ block e. stake_block-previous template _ _ block e;
                    }))))

  module _ (nb_write : Bytes → Action Socket (Unit {0})) where
    -- What `set_head` does once the block tree has the new head leaves the tree.
    set_head-blocktree :
        (block : HashedBlock) (service : IroncService S Socket) (h parent : HashDigest) (tree : S)
        → decode_hash block ≡ ok h
        → decode_previous block ≡ ok parent
        → Tree.set_head kv h service.blocktree ≡ (ok tt, tree)
        → (set_head kv nb_write block service).1.blocktree ≡ tree
    unfolding set_head publish_new_head
    set_head-blocktree block service h parent tree named previous moved =
        let after = record service { blocktree = tree } in
        rw (named, lift, previous, moved)
          (and_then-blocktree tree (prune_invalid_transactions kv after) _
            (prune-IsSettled kv after).blocktree
            (λ _ s i. and_then-blocktree tree (lift (decode_staker_pk block) s) _ i (λ _ s i.
              and_then-blocktree tree (lift (codecs.hashed_block.write_to_bytes block) s) _ i
                (λ bytes s i. i))))

    -- A staked block that is accepted becomes the head, after the block of the template.
    pub record IsStaked (genesis : HashDigest) (template : BlockTemplate) (s : S) : Type 0 where
      pub hash : HashDigest
      pub states : States
      pub tree : IsTree kv s genesis hash states
      pub previous : decode_diff_previous tree.head_diff ≡ ok template.previous_block

    -- How a stake ends.
    abbrev pub Ends :
        HashDigest → States → BlockTemplate → S → Run (Unit {0}) × IroncService S Socket → Type 0
    Ends genesis state template s (r, service) =
        Continues kv s genesis state service.blocktree
        × (IsStaked genesis template service.blocktree
            ⊎ ((service.blocktree ≡ s) × (c : IroncError ⊎ Panic) × (r ≡ refuse c)))

    module _ (laws : HasLaws kv) (template : BlockTemplate) (s : S) (genesis head : HashDigest)
        (state : States) (tree : IsTree kv s genesis head state) where
      unchanged-Continues : Continues kv s genesis state s
      unchanged-Continues = Reaches-Continues kv laws s s genesis head state Reaches.done tree

      -- The previous block of a stored block, in the words of the template.
      parent-template :
          (block : HashedBlock) (parent : HashDigest)
          → get_bytes (get_block block).previous ≡ template.previous_block.bytes
          → decode_previous block ≡ ok parent
          → parent ≡ template.previous_block
      unfolding decode_previous
      parent-template block parent said e =
          ap (λ (b : Bytes). record { bytes = b }) ((decoded-sized _ parent e).1 ∙ said)

      stake-Ends :
          (block : HashedBlock) (service : IroncService S Socket)
          → service.blocktree ≡ s
          → HasRoom kv s
          → ((h : HashDigest) → decode_hash block ≡ ok h → IsFresh kv s h)
          → get_bytes (get_block block).previous ≡ template.previous_block.bytes
          → Ends genesis state template s (
              and_then
                (on_blocktree (Tree.insert_block kv block) service)
                (λ _. set_head kv nb_write block))
      unfolding decode_diff_previous
      stake-Ends block service same room fresh said =
          elim (insert_block-IsInserted kv s genesis head state tree laws block room fresh) [
            | inr (c, e) ↦
                rw (same, e, and_then-refuse c (record service { blocktree = s }) _)
                  (unchanged-Continues, inr (refl, c, refl))
            | inl (s₁, e, i) ↦
                let (s₂, e₂, tree₂, kept) =
                  set_head-IsTree kv laws s₁ genesis head (extended i.hash i.accounts state) i.grown
                    i.hash _ i.stored in
                let p = i.grown.blocks.parents i.hash _ i.stored (
                  stored-apart kv s i.hash genesis tree.blocks.genesis_diff (fresh i.hash i.named)
                    tree.blocks.genesis_stored) in
                let end =
                  set_head-blocktree block (record service { blocktree = s₁ }) i.hash p.parent s₂
                    i.named p.previous e₂ in
                let continues =
                  Reaches-Continues kv laws s s₂ genesis head state
                    (Reaches.next (Step.inserted block (ok tt) room fresh e)
                      (Reaches.next (Step.moved i.hash (ok tt) e₂) Reaches.done))
                    tree in
                let staked : IsStaked genesis template s₂ = record {
                  hash = i.hash;
                  states = extended i.hash i.accounts state;
                  tree = tree₂;
                  previous =
                      subst
                        (λ (d : BlockWithDiff). decode_diff_previous d ≡ ok template.previous_block)
                        (stored_unique (sym (kept i.hash ∙ i.stored) ∙ tree₂.head_stored))
                        (p.previous ∙ ap ok (parent-template block p.parent said p.previous));
                } in
                rw (same, e)
                  (
                    subst (λ (t : S). Continues kv s genesis state t) (sym end) continues,
                    inl (subst (λ (t : S). IsStaked genesis template t) (sym end) staked),
                  )
          ]

    pub on_successful_stake-IsStaked :
        (laws : HasLaws kv) (template : BlockTemplate) (service : IroncService S Socket)
        (genesis head : HashDigest) (state : States)
        → IsTree kv service.blocktree genesis head state
        → HasRoom kv service.blocktree
        → ((block : HashedBlock) (h : HashDigest)
            → (make_staked_block kv template service).0 ≡ ok block
            → decode_hash block ≡ ok h
            → IsFresh kv service.blocktree h)
        → Ends genesis state template service.blocktree
            (on_successful_stake kv nb_write template service)
    unfolding on_successful_stake
    on_successful_stake-IsStaked laws template service genesis head state tree room fresh =
        let made = make_staked_block-IsMade template service in
        let run = make_staked_block kv template service in
        let G = λ (p : Run HashedBlock × IroncService S Socket).
          Ends genesis state template service.blocktree (
            and_then p (λ block svc.
              and_then (on_blocktree (Tree.insert_block kv block) svc)
                (λ _. set_head kv nb_write block))) in
        let whole : (r : Run HashedBlock) → run.0 ≡ r → (r, run.1) ≡ run = λ r e.
          ap {B = Run HashedBlock × IroncService S Socket} (λ (t : Run HashedBlock). (t, run.1))
            (sym e) in
        elim (Run-cases run.0) [
          | inr (c, e) ↦ subst G (whole (refuse c) e) (
              rw (and_then-refuse c run.1 _) (
                subst (λ (t : S). Continues kv service.blocktree genesis state t)
                    (sym made.settled.blocktree)
                    (unchanged-Continues laws template service.blocktree genesis head state tree),
                inr (made.settled.blocktree, c, refl),
              ))
          | inl (block, e) ↦ subst G (whole (ok block) e) (
              stake-Ends laws template service.blocktree genesis head state tree block run.1
                made.settled.blocktree room (λ h named. fresh block h e named)
                (made.previous block e))
        ]
