-- ===== src/Blocktree/Moves.antt =====
-- `set_head` of blocktree.rs in a well-formed tree: the balances become those at the new head.
use ironcoin.Base.{
  ◌≡◌, ◌≢◌, refl, sym, ◌∙◌, ap, subst, none, some, arith, length, list_eq, nat_eq, Bool-cases, inl,
  inr, ◌⊎◌,
}
use ironcoin.Base.Run.{ok, IroncError, Panic, refuse, Run-cases, >>=-refuse, err}
use ironcoin.Base.Action.{and_then-refuse}
use ironcoin.Balance.Patches.{StartsAt, apply-changed_patches}
use ironcoin.Balance.Snapshot.{LedgerSnapshot, make_patches}
use ironcoin.Block.{decode_diff_hash, decode_hash}
use ironcoin.Blocktree.Ancestry.{snapshot_at-Shows}
use ironcoin.Blocktree.Steps.{Shows}
use ironcoin.Blocktree.Keys.{
  format_balance_key, format_block_key, genesis_field, get_balance, get_block, get_block_diff,
  get_genesis_hash, head_field,
}
use ironcoin.Blocktree.Entries.{
  block-head_apart, get_block_diff_congr, get_genesis_hash_congr, get_head_hash-written,
  head-genesis_apart,
}
use ironcoin.Blocktree.Laws.{
  HasLaws, IsAccounting, balances, block_key-IsTreeKey, blocktree-IsLedger, genesis_field-IsTreeKey,
  get_balance_congr, balances_congr, head_field-IsTreeKey, other_key,
}
use ironcoin.Blocktree.Store.{apply_patches, set_head}
use ironcoin.Blocktree.Tree.{HasBlocks, IsStored, IsTree, States}
use ironcoin.Crypto.Sizes.{decoded-sized}
use ironcoin.Crypto.HashDigest.{HashDigest, digest_beq, digest_beq_iff}
use ironcoin.Crypto.PublicKey.{PublicKey}
use ironcoin.External.{Base64, Sodium}
use ironcoin.Message.Codecs.{Codecs}
use ironcoin.Message.Ledger.{BlockWithDiff}
use ironcoin.Store.{KeyValueStore}

module _ {S : Type 0} (kv : KeyValueStore S) ⦃sodium : Sodium⦄ ⦃base64 : Base64⦄
    ⦃codecs : Codecs⦄ where
  pub stored-sized :
      (d : BlockWithDiff) (h : HashDigest)
      → decode_diff_hash d ≡ ok h
      → length h.bytes ≡ sodium.hash_bytes
  unfolding decode_diff_hash decode_hash
  stored-sized d h e = (decoded-sized _ h e).0

  -- The blocks are what the reads of blocks give.
  pub HasBlocks-congr :
      (s s' : S) (genesis : HashDigest) (state : States)
      → ((h : HashDigest) → get_block_diff kv h s' ≡ get_block_diff kv h s)
      → get_genesis_hash kv s' ≡ get_genesis_hash kv s
      → HasBlocks kv s genesis state
      → HasBlocks kv s' genesis state
  HasBlocks-congr s s' genesis state same same_genesis b = record {
    genesis_hash = same_genesis ∙ b.genesis_hash;
    genesis_diff = b.genesis_diff;
    genesis_stored = same genesis ∙ b.genesis_stored;
    hashes = λ h d e. b.hashes h d (sym (same h) ∙ e);
    parents = λ h d e fresh.
        let p = b.parents h d (sym (same h) ∙ e) fresh in
        record {
          parent = p.parent;
          parent_diff = p.parent_diff;
          previous = p.previous;
          stored = same p.parent ∙ p.stored;
          height = p.height;
          leads = p.leads;
        };
    lowest = λ h d e. b.lowest h d (sym (same h) ∙ e);
  }

  module _ (laws : HasLaws kv) (s : S) (genesis head : HashDigest) (state : States)
      (tree : IsTree kv s genesis head state) where
    -- The patches of a snapshot that shows a block's balances, applied to the store.
    apply_patches-Shows :
        (h : HashDigest) (snap : LedgerSnapshot S)
        → Shows kv s genesis head state tree h snap
        → (s' : S) × (apply_patches kv (make_patches snap) s ≡ (ok tt, s'))
          × IsAccounting kv laws s s'
          × ((q : PublicKey) → balances kv s' q ≡ state h q)
    unfolding apply_patches make_patches
    apply_patches-Shows h snap shows =
        let starts : StartsAt (balances kv s) snap.cache =
          λ q patch found. ground (arith, shows.over.before q) in
        let (s', e, acc, after) =
          apply-changed_patches (blocktree-IsLedger kv laws s) snap.cache s shows.over.cache
            (record { readable = tree.readable; tree = λ key other. refl }) starts in
        (s', e, acc, λ q. after q ∙ shows.after q)

    -- `set_head` to a stored block succeeds: the tree is well formed with that head, so that the
    -- balances in the store are those at the block; every block stays.
    pub set_head-IsTree :
        (h : HashDigest) (d : BlockWithDiff)
        → IsStored kv s h d
        → (s' : S) × (set_head kv h s ≡ (ok tt, s'))
          × IsTree kv s' genesis h state
          × ((k : HashDigest) → get_block_diff kv k s' ≡ get_block_diff kv k s)
    unfolding set_head get_block
    set_head-IsTree h d stored = elim (Bool-cases (digest_beq h head)) [
      | inl same ↦
          let here = sym ((digest_beq_iff h head).0 same) in
          (
            s,
            rw (tree.head_hash, same),
            subst (λ (k : HashDigest). IsTree kv s genesis k state) here tree,
            λ k. refl,
          )
      | inr apart ↦
          let (snap, e, shows) = snapshot_at-Shows kv s genesis head state tree h d stored in
          let (s₁, e₁, acc, moved) = apply_patches-Shows h snap shows in
          let (s', e', at) = laws.store.set-eq head_field h.bytes s₁ in
          let blocks : (k : HashDigest) → get_block_diff kv k s' ≡ get_block_diff kv k s = λ k.
            get_block_diff_congr kv laws s s' k (
              other_key kv laws head_field (format_block_key k) h.bytes s₁ s'
                (λ e. block-head_apart kv laws k (sym e)) (at (format_block_key k))
              ∙ acc.tree (format_block_key k) (block_key-IsTreeKey kv laws k)) in
          let same_genesis : get_genesis_hash kv s' ≡ get_genesis_hash kv s =
            get_genesis_hash_congr kv laws s s' (
              other_key kv laws head_field genesis_field h.bytes s₁ s' (head-genesis_apart kv laws)
                (at genesis_field)
              ∙ acc.tree genesis_field (genesis_field-IsTreeKey kv laws)) in
          let same_balance : (q : PublicKey) → get_balance kv s' q ≡ get_balance kv s₁ q = λ q.
            get_balance_congr kv laws s₁ s' q (
              other_key kv laws head_field (format_balance_key q) h.bytes s₁ s'
                (λ e. head_field-IsTreeKey kv laws q (sym e)) (at (format_balance_key q))) in
          (
            s',
            rw (tree.head_hash, apart, stored, e, e₁, e'),
            record {
              blocks = HasBlocks-congr s s' genesis state blocks same_genesis tree.blocks;
              head_hash =
                  get_head_hash-written kv laws s' h (at head_field)
                    (stored-sized d h (tree.blocks.hashes h d stored));
              head_diff = d;
              head_stored = blocks h ∙ stored;
              readable = λ q. let (b, r) = acc.readable q in (b, same_balance q ∙ r);
              at_head = λ q. balances_congr kv s₁ s' q (same_balance q) ∙ moved q;
            },
            blocks,
          )
    ]

    -- A block that is not in the tree is refused as a head, and the store is left as it is: where no
    -- block is stored under the hash, with the error that names the hash as an unknown head, and
    -- where the read of the store fails, as the read does.
    pub set_head-refused :
        (h : HashDigest)
        → ((d : BlockWithDiff) → get_block_diff kv h s ≢ ok (some d))
        → ((get_block_diff kv h s ≡ ok none)
            × (set_head kv h s ≡ (err (IroncError.unknown_head h.bytes), s)))
          ⊎ ((c : IroncError ⊎ Panic) × (get_block_diff kv h s ≡ refuse c)
              × (set_head kv h s ≡ (refuse c, s)))
    unfolding set_head get_block
    set_head-refused h unknown = elim (Bool-cases (digest_beq h head)) [
      | inl same ↦
          let here = (digest_beq_iff h head).0 same in
          absurd (
            unknown tree.head_diff
              (ap (λ (k : HashDigest). get_block_diff kv k s) here ∙ tree.head_stored))
      | inr apart ↦ elim (Run-cases (get_block_diff kv h s)) [
        | inr (c, e) ↦
            inr (c, e, rw (tree.head_hash, apart, e, >>=-refuse c) (and_then-refuse c s _))
        | inl (none, e) ↦ inl (e, rw (tree.head_hash, apart, e))
        | inl (some d, e) ↦ absurd (unknown d e)
      ]
    ]
