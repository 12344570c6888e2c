-- ===== src/Blocktree/Growth.antt =====
-- `insert_block` of blocktree.rs in a well-formed tree, whatever block it is given.
use native.Mathlib.Decide.{ℕ_discrete}
use ironcoin.Base.{
  ◌⊎◌, nat_beq_ne, ◌+◌, ◌%◌, ◌^◌, ◌≡◌, ◌≢◌, refl, ◌∙◌, none, some, List, arith, inl, inr, nat_eq,
  nat_beq_iff,
}
use ironcoin.Base.Run
use ironcoin.Base.Run.{Run, ok, err, panic, IroncError, Panic, ok_or, refuse, Run-cases, >>=-refuse}
use ironcoin.Base.Action.{and_then-refuse}
use ironcoin.Balance.Over.{apply_block-Stays}
use ironcoin.Balance.Revert.{commit_lem, commit_patches-IsCache}
use ironcoin.Balance.Snapshot
use ironcoin.Balance.Snapshot.{LedgerSnapshot, apply_block, changed_patches, make_patches}
use ironcoin.Balance.View.{Accounts, after_cache}
use ironcoin.Block.{
  decode_diff_hash, decode_diff_previous, decode_hash, decode_previous, get_diff_height, get_height,
  verify,
}
use ironcoin.Block.Verify.{verify-IsVerified}
use ironcoin.Blocktree.Ancestry.{snapshot_at-Shows}
use ironcoin.Blocktree.Insertion.{
  IsChild, IsChild-IsTree, HasRoom, IsFresh, extended, set_block_diff-IsWritten,
}
use ironcoin.Blocktree.Keys
use ironcoin.Blocktree.Keys.{blocktree_reader, get_block_diff, set_block_diff}
use ironcoin.Blocktree.Laws.{HasLaws, balances, balances-eq}
use ironcoin.Blocktree.Store.{block_patches, insert_block}
use ironcoin.Blocktree.Tree.{IsStored, IsTree, Leads, States}
use ironcoin.Crypto.HashDigest.{HashDigest}
use ironcoin.External.{Base64, Sodium}
use ironcoin.Message.Codecs.{Codecs}
use ironcoin.Message.Ledger.{BalancePatch, BlockWithDiff, HashedBlock}
use ironcoin.Store.{KeyValueStore}

module _ {S : Type 0} (kv : KeyValueStore S) ⦃sodium : Sodium⦄ ⦃base64 : Base64⦄ ⦃codecs : Codecs⦄
    (s : S) (genesis head : HashDigest) (state : States)
    (tree : IsTree kv s genesis head state) where
  -- The patches of a block at a stored parent lead from the balances at the parent to others;
  -- or the block is refused.
  pub block_patches-Leads :
      (parent : HashDigest) (d : BlockWithDiff) (block : HashedBlock)
      → IsStored kv s parent d
      → (r : Run (Unit {0})) × (snap : LedgerSnapshot S) × (block_patches kv parent block s
          ≡ Run.◌>>=◌ r (λ _. ok (make_patches snap)))
        × Leads (make_patches snap) (state parent) (after_cache (state parent) snap.cache)
  unfolding block_patches Snapshot.commit make_patches
  block_patches-Leads parent d block stored =
      let (shown, e, shows) = snapshot_at-Shows kv s genesis head state tree parent d stored in
      let (keeps, starts, _) = commit_lem (balances kv s) shown in
      let (snap, r, e', over) =
        apply_block-Stays (blocktree_reader kv) (balances kv s) s (state parent)
          (balances-eq kv s tree.readable) block (Snapshot.commit shown)
          (record {
            store = shows.over.store;
            cache = commit_patches-IsCache shown.cache shows.over.cache;
            before = λ q. starts q ∙ shows.after q;
          }) in
      (
        r,
        snap,
        rw (e, e'),
        record {
          cache = snap.cache;
          patches = refl;
          keys = over.cache;
          starts = λ q patch found. ground (arith, over.before q);
          ends = λ q. refl;
        },
      )

  -- The block is in the tree now, at its own hash, with the patches that it makes.
  pub record IsInserted (block : HashedBlock) (s' : S) : Type 0 where
    pub hash : HashDigest
    pub named : decode_hash block ≡ ok hash
    pub patches : List BalancePatch
    pub stored : IsStored kv s' hash (record { hashed_block = some block; diff = patches })
    pub accounts : Accounts
    pub others : (k : HashDigest) → hash ≢ k → get_block_diff kv k s' ≡ get_block_diff kv k s
    pub grown : IsTree kv s' genesis head (extended hash accounts state)

  -- The last step of `insert_block`.
  write-IsInserted :
      (laws : HasLaws kv) (block : HashedBlock) (h parent : HashDigest) (d : BlockWithDiff)
      (snap : LedgerSnapshot S)
      → decode_hash block ≡ ok h
      → IsFresh kv s h
      → decode_previous block ≡ ok parent
      → IsStored kv s parent d
      → get_height block ≡ get_diff_height d + 1
      → Leads (make_patches snap) (state parent) (after_cache (state parent) snap.cache)
      → (s' : S) × (set_block_diff kv
            (record { hashed_block = some block; diff = make_patches snap })
            s
          ≡ (ok tt, s'))
        × IsInserted block s'
  unfolding decode_diff_hash decode_diff_previous get_diff_height
  write-IsInserted laws block h parent d snap named fresh previous stored height leads =
      let new : BlockWithDiff = record { hashed_block = some block; diff = make_patches snap } in
      let g = after_cache (state parent) snap.cache in
      let (s', e, written) = set_block_diff-IsWritten kv laws new h s named in
      let child : IsChild kv s state h new g = record {
        fresh = fresh;
        named = named;
        parent = parent;
        parent_diff = d;
        previous = previous;
        parent_stored = stored;
        height = height;
        leads = leads;
      } in
      (
        s',
        e,
        record {
          hash = h;
          named = named;
          patches = make_patches snap;
          stored = written.stored;
          accounts = g;
          others = written.others;
          grown = IsChild-IsTree kv s s' genesis state h new g tree.blocks child written head tree;
        },
      )

  -- `insert_block` on a well-formed tree, for a block whose hash is not in it, where the heights of
  -- its blocks leave room for one more: it either stores the block, and the tree is well formed with
  -- it, under the same head and with the same balances at the other blocks, or refuses it and leaves
  -- the store as it is.
  pub insert_block-IsInserted :
      (laws : HasLaws kv) (block : HashedBlock)
      → HasRoom kv s
      → ((h : HashDigest) → decode_hash block ≡ ok h → IsFresh kv s h)
      → ((s' : S) × (insert_block kv block s ≡ (ok tt, s')) × IsInserted block s')
        ⊎ ((c : IroncError ⊎ Panic) × (insert_block kv block s ≡ (refuse c, s)))
  unfolding insert_block Keys.get_block get_diff_height
  insert_block-IsInserted laws block room fresh = elim (Run-cases (verify block)) [
    | inr (c, e) ↦ inr (c, rw e (and_then-refuse c s _))
    | inl (u, e₁) ↦
        let hashed = (verify-IsVerified block e₁).hashed in
        let parent = hashed.previous in
        elim (Run-cases (get_block_diff kv parent s)) [
          | inr (c, e) ↦
              inr (c, rw (e₁, hashed.decoded_previous, e, >>=-refuse c) (and_then-refuse c s _))
          | inl (none, e) ↦
              inr (
                inl (IroncError.previous_missing parent.bytes),
                rw (e₁, hashed.decoded_previous, e),
              )
          | inl (some d, e₂) ↦
              elim (ℕ_discrete ((get_diff_height d + 1) % 2 ^ 32) (get_height block)) [
                | no differ ↦ inr (
                  inl (
                      IroncError.invalid_height (get_height block)
                        ((get_diff_height d + 1) % 2 ^ 32)),
                  rw (e₁, hashed.decoded_previous, e₂, nat_beq_ne _ _ differ),
                )
                | yes height ↦
                    let (r, snap, e₃, leads) = block_patches-Leads parent d block e₂ in
                    elim (Run-cases r) [
                      | inr (c, e) ↦ inr (
                        c,
                        rw
                            (
                              e₁,
                              hashed.decoded_previous,
                              e₂,
                              (nat_beq_iff _ _).1 height,
                              e₃,
                              e,
                              >>=-refuse c,
                            )
                            (and_then-refuse c s _),
                      )
                      | inl (v, e₄) ↦
                          let (s', e₅, inserted) =
                            write-IsInserted laws block hashed.hash parent d snap hashed.decoded
                              (fresh hashed.hash hashed.decoded) hashed.decoded_previous e₂
                              (omega (arith, height, room parent d e₂)) leads in
                          inl (
                            s',
                            rw (e₁, hashed.decoded_previous, e₂, (nat_beq_iff _ _).1 height, e₃, e₄)
                                e₅,
                            inserted,
                          )
                    ]
              ]
        ]
  ]
