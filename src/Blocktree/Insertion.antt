-- ===== src/Blocktree/Insertion.antt =====
-- `set_block_diff` of blocktree.rs in a well-formed tree: a block at a new hash, with patches that
-- start from the balances at its parent.
use ironcoin.Base.{
  ◌+◌, ◌≤◌, ◌<◌, ◌^◌, ◌≡◌, ◌≢◌, refl, sym, ◌∙◌, ap, subst, false, some, arith, inl, inr, Bool-cases,
  if◌then◌else◌, list_eq,
}
use ironcoin.Base.Run.{ok}
use ironcoin.Balance.View.{Accounts}
use ironcoin.Block.{decode_diff_hash, decode_diff_previous, get_diff_height}
use ironcoin.Blocktree.Keys.{
  format_balance_key, format_block_key, genesis_field, get_balance, get_block_diff,
  get_genesis_hash, get_head_hash, head_field, set_block_diff,
}
use ironcoin.Blocktree.Entries.{
  block-genesis_apart, block-head_apart, block_key_injective, get_block_diff-written,
  get_block_diff_congr, get_genesis_hash_congr, get_head_hash_congr,
}
use ironcoin.Blocktree.Laws.{
  HasLaws, balances_congr, block_key-IsTreeKey, get_balance_congr, other_key,
}
use ironcoin.Blocktree.Tree.{HasBlocks, HasParent, IsStored, IsTree, Leads, States}
use ironcoin.Crypto.HashDigest.{HashDigest, digest_beq, digest_beq_iff}
use ironcoin.Crypto.PublicKey.{PublicKey}
use ironcoin.External.{Base64, Sodium}
use ironcoin.Message.Codecs.{Codecs}
use ironcoin.Message.Ledger.{BlockWithDiff}
use ironcoin.Store.{KeyValueStore}
use ironcoin.Store.Laws.{get_message-set_message}

-- The balances at each block, with those at a new one.
abbrev pub extended : HashDigest → Accounts → States → States
extended h g state k = if digest_beq h k then g else state k

pub stored_unique : {a b : BlockWithDiff} → ok (some a) ≡ ok (some b) → a ≡ b
stored_unique e = cc

module _ {S : Type 0} (kv : KeyValueStore S) ⦃sodium : Sodium⦄ ⦃base64 : Base64⦄
    ⦃codecs : Codecs⦄ where
  -- What a write of one block leaves: that block, and everything else of the tree.
  pub record IsWritten (s s' : S) (h : HashDigest) (d : BlockWithDiff) : Type 0 where
    pub stored : IsStored kv s' h d
    pub others : (k : HashDigest) → h ≢ k → get_block_diff kv k s' ≡ get_block_diff kv k s
    pub head : get_head_hash kv s' ≡ get_head_hash kv s
    pub genesis : get_genesis_hash kv s' ≡ get_genesis_hash kv s
    pub balance : (q : PublicKey) → get_balance kv s' q ≡ get_balance kv s q

  -- A block is written at its own hash; the other blocks, the head, the genesis and the balances
  -- stay.
  pub set_block_diff-IsWritten :
      (laws : HasLaws kv) (d : BlockWithDiff) (h : HashDigest) (s : S)
      → decode_diff_hash d ≡ ok h
      → (s' : S) × (set_block_diff kv d s ≡ (ok tt, s')) × IsWritten s s' h d
  unfolding set_block_diff
  set_block_diff-IsWritten laws d h s named =
      let (s', e, reads, at) =
        get_message-set_message laws.store laws.block_with_diff (format_block_key h) d s in
      (
        s',
        rw named e,
        record {
          stored = get_block_diff-written kv laws s' h d reads;
          others = λ k apart. get_block_diff_congr kv laws s s' k (
              other_key kv laws (format_block_key h) (format_block_key k) _ s s'
                (λ e. apart (block_key_injective kv laws h k e)) (at (format_block_key k)));
          head = get_head_hash_congr kv laws s s' (
              other_key kv laws (format_block_key h) head_field _ s s' (block-head_apart kv laws h)
                (at head_field));
          genesis = get_genesis_hash_congr kv laws s s' (
              other_key kv laws (format_block_key h) genesis_field _ s s'
                (block-genesis_apart kv laws h) (at genesis_field));
          balance = λ q. get_balance_congr kv laws s s' q (
              other_key kv laws (format_block_key h) (format_balance_key q) _ s s'
                (λ e. block_key-IsTreeKey kv laws h q (sym e)) (at (format_balance_key q)));
        },
      )

  abbrev pub IsFresh : S → HashDigest → Type 0
  IsFresh s h = (d : BlockWithDiff) → get_block_diff kv h s ≢ ok (some d)

  -- The heights of the tree leave room for one more.
  abbrev pub HasRoom : S → Type 0
  HasRoom s =
      (h : HashDigest) (d : BlockWithDiff) → IsStored kv s h d → get_diff_height d + 1 < 2 ^ 32

  -- A new block stands on a block of the tree.
  pub record IsChild (s : S) (state : States) (h : HashDigest) (d : BlockWithDiff) (g : Accounts)
      : Type 0 where
    pub fresh : IsFresh s h
    pub named : decode_diff_hash d ≡ ok h
    pub parent : HashDigest
    pub parent_diff : BlockWithDiff
    pub previous : decode_diff_previous d ≡ ok parent
    pub parent_stored : IsStored kv s parent parent_diff
    pub height : get_diff_height d ≡ get_diff_height parent_diff + 1
    pub leads : Leads d.diff (state parent) g

  pub stored-apart :
      (s : S) (h k : HashDigest) (d : BlockWithDiff) → IsFresh s h → IsStored kv s k d → h ≢ k
  stored-apart s h k d fresh stored e =
      fresh d (ap (λ (i : HashDigest). get_block_diff kv i s) e ∙ stored)

  pub extended-other :
      (h k : HashDigest) (g : Accounts) (state : States) → h ≢ k → extended h g state k ≡ state k
  extended-other h k g state apart =
      let unequal : digest_beq h k ≡ false = ground (arith, digest_beq_iff h k) in rw unequal

  extended-new : (h : HashDigest) (g : Accounts) (state : States) → extended h g state h ≡ g
  extended-new h g state = rw ((digest_beq_iff h h).1 refl)

  module _ (s s' : S) (genesis : HashDigest) (state : States) (h : HashDigest) (d : BlockWithDiff)
      (g : Accounts) (blocks : HasBlocks kv s genesis state) (child : IsChild s state h d g)
      (written : IsWritten s s' h d) where
    -- A block after the write is the new one or an old one.
    stored-cases :
        (k : HashDigest) (e : BlockWithDiff) {R : Type 0}
        → IsStored kv s' k e
        → (h ≡ k → d ≡ e → R)
        → (h ≢ k → IsStored kv s k e → R)
        → R
    stored-cases k e {R} stored new old = elim (Bool-cases (digest_beq h k)) [
      | inl same ↦
          let here = (digest_beq_iff h k).0 same in
          new here (
            stored_unique
              (sym written.stored ∙ ap (λ (i : HashDigest). get_block_diff kv i s') here ∙ stored))
      | inr unequal ↦
          let apart : h ≢ k = λ e'. cc (sym unequal ∙ (digest_beq_iff h k).1 e') in
          old apart (sym (written.others k apart) ∙ stored)
    ]

    IsStored-old : (k : HashDigest) (e : BlockWithDiff) → IsStored kv s k e → IsStored kv s' k e
    IsStored-old k e stored = written.others k (stored-apart s h k e child.fresh stored) ∙ stored

    new_parent : HasParent kv s' (extended h g state) h d
    new_parent = record {
      parent = child.parent;
      parent_diff = child.parent_diff;
      previous = child.previous;
      stored = IsStored-old child.parent child.parent_diff child.parent_stored;
      height = child.height;
      leads =
          rw
            (
              extended-new h g state,
              extended-other h child.parent g state
                  (stored-apart s h child.parent child.parent_diff child.fresh child.parent_stored),
            )
            child.leads;
    }

    old_parent :
        (k : HashDigest) (e : BlockWithDiff)
        → h ≢ k
        → HasParent kv s state k e
        → HasParent kv s' (extended h g state) k e
    old_parent k e apart p = record {
      parent = p.parent;
      parent_diff = p.parent_diff;
      previous = p.previous;
      stored = IsStored-old p.parent p.parent_diff p.stored;
      height = p.height;
      leads =
          rw
            (
              extended-other h k g state apart,
              extended-other h p.parent g state
                  (stored-apart s h p.parent p.parent_diff child.fresh p.stored),
            )
            p.leads;
    }

    pub IsChild-HasBlocks : HasBlocks kv s' genesis (extended h g state)
    IsChild-HasBlocks = record {
      genesis_hash = written.genesis ∙ blocks.genesis_hash;
      genesis_diff = blocks.genesis_diff;
      genesis_stored = IsStored-old genesis blocks.genesis_diff blocks.genesis_stored;
      hashes = λ k e stored.
          stored-cases k e stored
            (λ here same.
              subst (λ (i : BlockWithDiff). decode_diff_hash i ≡ ok k) same
                (subst (λ (i : HashDigest). decode_diff_hash d ≡ ok i) here child.named))
            (λ apart old. blocks.hashes k e old);
      parents = λ k e stored apart.
          stored-cases k e stored
            (λ here same.
              subst (λ (i : BlockWithDiff). HasParent kv s' (extended h g state) k i) same
                (subst (λ (i : HashDigest). HasParent kv s' (extended h g state) i d) here
                  new_parent))
            (λ other old. old_parent k e other (blocks.parents k e old apart));
      lowest = λ k e stored.
          stored-cases k e stored
            (λ here same.
              let low = blocks.lowest child.parent child.parent_diff child.parent_stored in
              subst (λ (i : BlockWithDiff). get_diff_height blocks.genesis_diff ≤ get_diff_height i)
                same (omega (arith, child.height)))
            (λ apart old. blocks.lowest k e old);
    }

    pub IsChild-IsTree :
        (head : HashDigest)
        → IsTree kv s genesis head state
        → IsTree kv s' genesis head (extended h g state)
    IsChild-IsTree head tree = record {
      blocks = IsChild-HasBlocks;
      head_hash = written.head ∙ tree.head_hash;
      head_diff = tree.head_diff;
      head_stored = IsStored-old head tree.head_diff tree.head_stored;
      readable = λ q. let (b, e) = tree.readable q in (b, written.balance q ∙ e);
      at_head = λ q.
          balances_congr kv s s' q (written.balance q)
          ∙ tree.at_head q
          ∙ rw (
              extended-other h head g state
                (stored-apart s h head tree.head_diff child.fresh tree.head_stored));
    }
