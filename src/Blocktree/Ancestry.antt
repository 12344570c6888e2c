-- ===== src/Blocktree/Ancestry.antt =====
-- `snapshot_at` of blocktree.rs in a well-formed tree: the walk ends, and the snapshot shows the
-- balances at the block that is asked for.
use ironcoin.Base.{
  subst, ℕ, zero, suc, ◌<◌, ◌≡◌, ◌≢◌, refl, sym, ◌∙◌, List, [], ◌∷◌, arith, some, Bool-cases, inl,
  inr,
}
use ironcoin.Base.Run.{ok}
use ironcoin.Base.Action.{for_each}
use ironcoin.Balance.Snapshot
use ironcoin.Balance.Snapshot.{LedgerSnapshot, snapshot_ledger}
use ironcoin.Blocktree.Steps.{IsPath, IsWalk, Shows, Shows-Leads-on, measure, walk_step-Advances}
use ironcoin.Blocktree.Tree.{IsStored, IsTree, States}
use ironcoin.Blocktree.Walk.{
  WalkState, apply_diffs, snapshot, snapshot_at, start_walk, walk, fill_snapshot,
}
use ironcoin.Crypto.HashDigest.{HashDigest, digest_beq, digest_beq_iff}
use ironcoin.External.{Base64, Sodium}
use ironcoin.Message.Codecs.{Codecs}
use ironcoin.Message.Ledger.{BlockWithDiff}
use ironcoin.Store.{KeyValueStore}

some-injective-ok : {a b : BlockWithDiff} → ok (some a) ≡ ok (some b) → a ≡ b
some-injective-ok e = cc

module _ {S : Type 0} (kv : KeyValueStore S) ⦃sodium : Sodium⦄ ⦃base64 : Base64⦄ ⦃codecs : Codecs⦄
    (s : S) (genesis head : HashDigest) (state : States)
    (tree : IsTree kv s genesis head state) where
  -- With fuel above the measure kv s genesis head state tree the walk ends at a common ancestor.
  walk-ends :
      (fuel : ℕ) (target : HashDigest) (w : WalkState) (snap : LedgerSnapshot S)
      → IsWalk kv s genesis head state tree target w snap
      → measure kv s genesis head state tree w < fuel
      → (stack : List BlockWithDiff) × (ancestor : HashDigest) × (snap' : LedgerSnapshot S) × (walk
            kv fuel genesis w snap
          ≡ (ok stack, snap'))
        × IsPath kv s genesis head state tree ancestor stack target
        × Shows kv s genesis head state tree ancestor snap'
  unfolding walk
  walk-ends zero target w snap i enough = absurd (omega arith)
  walk-ends (suc fuel) target w snap i enough =
      elim (Bool-cases (digest_beq w.target_ancestor_hash w.head_ancestor_hash)) [
        | inl met ↦
            let same = (digest_beq_iff w.target_ancestor_hash w.head_ancestor_hash).0 met in
            (
              w.fast_forward_stack,
              w.head_ancestor_hash,
              snap,
              rw (met, walk),
              subst
                  (λ (h : HashDigest).
                    IsPath kv s genesis head state tree h w.fast_forward_stack target)
                  same i.path,
              i.shows,
            )
        | inr differ ↦
            let apart : w.target_ancestor_hash ≢ w.head_ancestor_hash =
              λ e. cc (sym differ ∙ (digest_beq_iff _ _).1 e) in
            let (w', snap₁, e₁, i', less) =
              walk_step-Advances kv s genesis head state tree target w snap i apart in
            let (stack, ancestor, snap', e, path, shows) =
              walk-ends fuel target w' snap₁ i' (omega arith) in
            (stack, ancestor, snap', rw (differ, walk, e₁) e, path, shows)
      ]

  -- The diffs of a path lead the snapshot to its end.
  apply_diffs-Shows :
      (stack : List BlockWithDiff) (h target : HashDigest) (snap : LedgerSnapshot S)
      → IsPath kv s genesis head state tree h stack target
      → Shows kv s genesis head state tree h snap
      → (snap' : LedgerSnapshot S) × (apply_diffs kv stack snap ≡ (ok tt, snap'))
        × Shows kv s genesis head state tree target snap'
  unfolding apply_diffs for_each
  apply_diffs-Shows [] h target snap path shows =
      (snap, refl, subst (λ (k : HashDigest). Shows kv s genesis head state tree k snap) path shows)
  apply_diffs-Shows (d ∷ stack) h target snap (next, leads, path) shows =
      let (snap₁, e₁, shows₁) =
        Shows-Leads-on kv s genesis head state tree h next d snap leads shows in
      let (snap', e, shows') = apply_diffs-Shows stack next target snap₁ path shows₁ in
      (snap', rw e₁ e, shows')

  -- The start of the walk: nothing is cached, so the snapshot shows the balances at the head.
  start : (h : HashDigest) (d : BlockWithDiff) → IsStored kv s h d → WalkState
  start h d stored = record {
    target_ancestor = d;
    head_ancestor = tree.head_diff;
    target_ancestor_hash = h;
    head_ancestor_hash = head;
    fast_forward_stack = [];
  }

  start_walk-eq :
      (h : HashDigest) (d : BlockWithDiff) (stored : IsStored kv s h d)
      → start_walk kv h s
        ≡ ok (
          suc (measure kv s genesis head state tree (start h d stored)),
          genesis,
          start h d stored,
        )
  unfolding start_walk start
  start_walk-eq h d stored = rw (
    stored,
    tree.head_hash,
    tree.head_stored,
    tree.blocks.hashes h d stored,
    tree.blocks.hashes head tree.head_diff tree.head_stored,
    tree.blocks.genesis_hash,
  )

  start-IsWalk :
      (h : HashDigest) (d : BlockWithDiff) (stored : IsStored kv s h d)
      → IsWalk kv s genesis head state tree h (start h d stored) (snapshot kv s)
  unfolding start snapshot Snapshot.new
  start-IsWalk h d stored = record {
    target_stored = stored;
    head_stored = tree.head_stored;
    path = refl;
    shows = record {
      over = record { store = refl; cache = tt; before = λ q. refl };
      after = tree.at_head;
    };
  }

  -- In a well-formed tree `snapshot_at` succeeds at every stored block, on the fuel that it takes:
  -- neither assertion fails and no block is missing. Its snapshot shows the balances at that block,
  -- and its patches start from the balances in the store.
  pub snapshot_at-Shows :
      (h : HashDigest) (d : BlockWithDiff)
      → IsStored kv s h d
      → (snap : LedgerSnapshot S) × (snapshot_at kv h s ≡ ok snap)
        × Shows kv s genesis head state tree h snap
  unfolding snapshot_at fill_snapshot snapshot Snapshot.new
  snapshot_at-Shows h d stored =
      let (stack, ancestor, snap₁, e₁, path, shows₁) =
        walk-ends (suc (measure kv s genesis head state tree (start h d stored))) h
          (start h d stored) (snapshot kv s) (start-IsWalk h d stored) (omega arith) in
      let (snap, e, shows) = apply_diffs-Shows stack ancestor h snap₁ path shows₁ in
      (snap, rw (start_walk-eq h d stored, e₁, e), shows)
