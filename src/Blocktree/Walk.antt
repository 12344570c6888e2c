-- ===== src/Blocktree/Walk.antt =====
-- `snapshot_at` of blocktree.rs: from the head back to the common ancestor, reverting diffs, and
-- forward to the target, applying them.
use ironcoin.Base.{ℕ, zero, suc, ◌+◌, true, false, List, [], ◌∷◌, not, leb, if◌then◌else◌}
use ironcoin.Base.Run
use ironcoin.Base.Run.{Run, ok, err, panic, IroncError, Panic, expect, ok_or, assert, unwrap}
use ironcoin.Base.Action.{Action, lift, pure, reads, for_each, ◌>>=◌, ◌>>◌}
use ironcoin.Balance.{apply_patch, reverse}
use ironcoin.Balance.Snapshot
use ironcoin.Balance.Snapshot.{LedgerSnapshot, snapshot_ledger}
use ironcoin.Block.{decode_diff_hash, decode_diff_previous, get_diff_height}
use ironcoin.Blocktree.Keys.{blocktree_reader, get_block_diff, get_genesis_hash, get_head_hash}
use ironcoin.Crypto.HashDigest.{HashDigest, digest_beq}
use ironcoin.External.{Base64, Sodium}
use ironcoin.Message.Codecs.{Codecs}
use ironcoin.Message.Ledger.{BlockWithDiff}
use ironcoin.Store.{KeyValueStore}

-- The variables of the `while` loop that changes the stack.
pub record WalkState : Type 0 where
  pub target_ancestor : BlockWithDiff
  pub head_ancestor : BlockWithDiff
  pub target_ancestor_hash : HashDigest
  pub head_ancestor_hash : HashDigest
  pub fast_forward_stack : List BlockWithDiff

module _ {S : Type 0} (kv : KeyValueStore S) ⦃sodium : Sodium⦄ ⦃base64 : Base64⦄
    ⦃codecs : Codecs⦄ where
  -- `snapshot()`
  unfoldable pub snapshot : S → LedgerSnapshot S
  unfolding Snapshot.new
  snapshot s = Snapshot.new s

  -- The first branch of the loop: revert the head's ancestor.
  unfoldable pub revert_step : HashDigest → WalkState → Action (LedgerSnapshot S) WalkState
  unfolding for_each apply_patch reverse
  revert_step genesis w = do
    lift (assert (not (digest_beq w.head_ancestor_hash genesis)) Panic.reverted_genesis)
    for_each (λ patch. apply_patch (snapshot_ledger (blocktree_reader kv)) (reverse patch))
        w.head_ancestor.diff
    previous ← lift (decode_diff_previous w.head_ancestor)
    found ← reads (λ s. get_block_diff kv previous s.store)
    block_diff ← lift (expect found Panic.head_history_missing)
    pure (record w { head_ancestor_hash = previous; head_ancestor = block_diff })

  -- The second branch: remember the target's ancestor.
  unfoldable pub forward_step : HashDigest → WalkState → Action (LedgerSnapshot S) WalkState
  forward_step genesis w = do
    lift (assert (not (digest_beq w.target_ancestor_hash genesis)) Panic.forwarded_genesis)
    previous ← lift (decode_diff_previous w.target_ancestor)
    found ← reads (λ s. get_block_diff kv previous s.store)
    block_diff ← lift (expect found Panic.target_history_missing)
    pure (record w {
      target_ancestor_hash = previous;
      target_ancestor = block_diff;
      fast_forward_stack = w.target_ancestor ∷ w.fast_forward_stack;
    })

  -- The body of the loop.
  unfoldable pub walk_step : HashDigest → WalkState → Action (LedgerSnapshot S) WalkState
  unfolding revert_step forward_step
  walk_step genesis w =
      if leb (get_diff_height w.target_ancestor) (get_diff_height w.head_ancestor)
      then revert_step genesis w
      else forward_step genesis w

  -- The `while` loop; the fuel bounds the rounds.
  unfoldable pub walk : ℕ → HashDigest → WalkState → Action (LedgerSnapshot S) (List BlockWithDiff)
  unfolding walk_step
  walk zero genesis w = lift (panic Panic.fuel_exhausted)
  walk (suc fuel) genesis w = elim (digest_beq w.target_ancestor_hash w.head_ancestor_hash) [
    | true ↦ pure w.fast_forward_stack
    | false ↦ walk_step genesis w >>= walk fuel genesis
  ]

  -- The loop that applies the diffs of the stack.
  unfoldable pub apply_diffs : List BlockWithDiff → Action (LedgerSnapshot S) (Unit {0})
  unfolding for_each apply_patch
  apply_diffs =
      for_each (λ block_diff.
        for_each (apply_patch (snapshot_ledger (blocktree_reader kv))) block_diff.diff)

  -- The start of the loop. Each round lowers one of the two heights.
  unfoldable pub start_walk : HashDigest → S → Run (ℕ × HashDigest × WalkState)
  start_walk block_hash s =
      let open_target : Run BlockWithDiff =
        Run.◌>>=◌ (get_block_diff kv block_hash s)
          (λ found. ok_or found (IroncError.patch_missing block_hash.bytes)) in
      let open_head : Run BlockWithDiff = Run.◌>>=◌ (get_head_hash kv s) (λ head_hash.
        Run.◌>>=◌ (get_block_diff kv head_hash s) (λ found. expect found Panic.unwrapped_none)) in
      Run.◌>>=◌ open_target (λ target. Run.◌>>=◌ open_head (λ head.
        Run.◌>>=◌ (unwrap (decode_diff_hash target)) (λ target_hash.
          Run.◌>>=◌ (unwrap (decode_diff_hash head)) (λ head_hash.
            Run.◌>>=◌ (get_genesis_hash kv s) (λ genesis. ok (
              suc (get_diff_height target + get_diff_height head),
              genesis,
              record {
                target_ancestor = target;
                head_ancestor = head;
                target_ancestor_hash = target_hash;
                head_ancestor_hash = head_hash;
                fast_forward_stack = [];
              },
            ))))))

  -- `snapshot_at`, with the snapshot that it fills as the state.
  unfoldable pub fill_snapshot : HashDigest → Action (LedgerSnapshot S) (Unit {0})
  unfolding start_walk walk apply_diffs
  fill_snapshot block_hash = do
    (fuel, genesis, w) ← reads (λ s. start_walk block_hash s.store)
    stack ← walk fuel genesis w
    apply_diffs stack

  unfoldable pub snapshot_at : HashDigest → S → Run (LedgerSnapshot S)
  unfolding snapshot fill_snapshot
  snapshot_at block_hash s =
      let (r, filled) = fill_snapshot block_hash (snapshot s) in Run.◌>>=◌ r (λ _. ok filled)
