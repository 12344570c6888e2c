-- ===== src/Blocktree/Steps.antt =====
-- One round of the walk of `snapshot_at` of blocktree.rs in a well-formed tree.
use native.Mathlib.Decide.{dec_le}
use ironcoin.Base.{
  ℕ, suc, ◌+◌, ◌≤◌, ◌<◌, ◌≡◌, ◌≢◌, sym, ◌∙◌, ap, List, [], ◌∷◌, false, arith, some, le→leb,
  lt→not_leb,
}
use ironcoin.Base.Run.{ok}
use ironcoin.Base.Action.{for_each}
use ironcoin.Balance.{apply_patch, reverse}
use ironcoin.Balance.Ledger.{IsLedger, IsOver, snapshot-IsLedger}
use ironcoin.Balance.Patches.{apply-changed_patches}
use ironcoin.Balance.Revert.{apply-reversed_patches}
use ironcoin.Balance.Snapshot.{LedgerSnapshot, snapshot_ledger}
use ironcoin.Balance.View.{after_cache, after_cache-congr}
use ironcoin.Block.{get_diff_height}
use ironcoin.Blocktree.Keys.{blocktree_reader, get_block_diff}
use ironcoin.Blocktree.Laws.{balances, balances-eq}
use ironcoin.Blocktree.Tree.{HasParent, IsStored, IsTree, Leads, States}
use ironcoin.Blocktree.Walk.{WalkState, forward_step, revert_step, walk_step}
use ironcoin.Crypto.HashDigest.{HashDigest, digest_beq, digest_beq_iff}
use ironcoin.Crypto.PublicKey.{PublicKey}
use ironcoin.External.{Base64, Sodium}
use ironcoin.Message.Codecs.{Codecs}
use ironcoin.Message.Ledger.{BlockWithDiff}
use ironcoin.Store.{KeyValueStore}

some-injective-ok : {a b : BlockWithDiff} → ok (some a) ≡ ok (some b) → a ≡ b
some-injective-ok e = cc

module _ {S : Type 0} (kv : KeyValueStore S) ⦃sodium : Sodium⦄ ⦃base64 : Base64⦄ ⦃codecs : Codecs⦄
    (s : S) (genesis head : HashDigest) (state : States)
    (tree : IsTree kv s genesis head state) where
  -- A stack of diffs that leads up from one block to another.
  abbrev pub IsPath : HashDigest → List BlockWithDiff → HashDigest → Type 0
  IsPath h [] target = h ≡ target
  IsPath h (d ∷ stack) target =
      (next : HashDigest) × Leads d.diff (state h) (state next) × IsPath next stack target

  -- A snapshot over the store that shows the balances at a block.
  pub record Shows (h : HashDigest) (snap : LedgerSnapshot S) : Type 0 where
    pub over : IsOver (blocktree_reader kv) (balances kv s) s (balances kv s) snap
    pub after : (q : PublicKey) → after_cache (balances kv s) snap.cache q ≡ state h q

  ledger :
      IsLedger
        (snapshot_ledger (blocktree_reader kv))
        (IsOver (blocktree_reader kv) (balances kv s) s (balances kv s))
        (λ snap. after_cache (balances kv s) snap.cache)
  ledger =
      snapshot-IsLedger (blocktree_reader kv) (balances kv s) s (balances kv s)
        (balances-eq kv s tree.readable)

  -- The loop invariant of the walk.
  pub record IsWalk (target : HashDigest) (w : WalkState) (snap : LedgerSnapshot S) : Type 0 where
    pub target_stored : IsStored kv s w.target_ancestor_hash w.target_ancestor
    pub head_stored : IsStored kv s w.head_ancestor_hash w.head_ancestor
    pub path : IsPath w.target_ancestor_hash w.fast_forward_stack target
    pub shows : Shows w.head_ancestor_hash snap

  abbrev pub measure : WalkState → ℕ
  measure w = get_diff_height w.target_ancestor + get_diff_height w.head_ancestor

  Shows-Leads-back :
      (h h' : HashDigest) (d : BlockWithDiff) (snap : LedgerSnapshot S)
      → Leads d.diff (state h') (state h)
      → Shows h snap
      → (snap' : LedgerSnapshot S) × (for_each
            (λ patch. apply_patch (snapshot_ledger (blocktree_reader kv)) (reverse patch))
            d.diff
            snap
          ≡ (ok tt, snap'))
        × Shows h' snap'
  Shows-Leads-back h h' d snap leads shows =
      let (snap', e, over, after) =
        apply-reversed_patches ledger leads.cache (state h') snap leads.keys shows.over leads.starts
          (λ q. shows.after q ∙ leads.ends q) in
      (snap', rw leads.patches e, record { over = over; after = after })

  pub Shows-Leads-on :
      (h h' : HashDigest) (d : BlockWithDiff) (snap : LedgerSnapshot S)
      → Leads d.diff (state h) (state h')
      → Shows h snap
      → (snap' : LedgerSnapshot S) × (for_each
            (apply_patch (snapshot_ledger (blocktree_reader kv)))
            d.diff
            snap
          ≡ (ok tt, snap'))
        × Shows h' snap'
  Shows-Leads-on h h' d snap leads shows =
      let (snap', e, over, after) =
        apply-changed_patches ledger leads.cache snap leads.keys shows.over
          (λ q patch found. shows.after q ∙ leads.starts q patch found) in
      (
        snap',
        rw leads.patches e,
        record {
          over = over;
          after = λ q.
              after q
              ∙ after_cache-congr (after_cache (balances kv s) snap.cache) (state h) leads.cache q
                  (shows.after q)
              ∙ sym (leads.ends q);
        },
      )

  -- One round of the walk keeps the invariant, and lowers the measure by one.
  abbrev pub Advances : HashDigest → WalkState → LedgerSnapshot S → Type 0
  Advances target w snap =
      (w' : WalkState) × (snap' : LedgerSnapshot S) × (walk_step kv genesis w snap ≡ (ok w', snap'))
      × IsWalk target w' snap'
      × (suc (measure w') ≡ measure w)

  revert_step-Advances :
      (target : HashDigest) (w : WalkState) (snap : LedgerSnapshot S)
      → IsWalk target w snap
      → get_diff_height w.target_ancestor ≤ get_diff_height w.head_ancestor
      → HasParent kv s state w.head_ancestor_hash w.head_ancestor
      → (digest_beq w.head_ancestor_hash genesis ≡ false)
      → Advances target w snap
  unfolding walk_step revert_step
  revert_step-Advances target w snap i above p fresh =
      let (snap', e, shows) =
        Shows-Leads-back w.head_ancestor_hash p.parent w.head_ancestor snap p.leads i.shows in
      (
        record w { head_ancestor_hash = p.parent; head_ancestor = p.parent_diff },
        snap',
        rw (le→leb _ _ above, fresh, e, p.previous, shows.over.store, p.stored),
        record {
          target_stored = i.target_stored;
          head_stored = p.stored;
          path = i.path;
          shows = shows;
        },
        omega (arith, p.height),
      )

  forward_step-Advances :
      (target : HashDigest) (w : WalkState) (snap : LedgerSnapshot S)
      → IsWalk target w snap
      → get_diff_height w.head_ancestor < get_diff_height w.target_ancestor
      → HasParent kv s state w.target_ancestor_hash w.target_ancestor
      → (digest_beq w.target_ancestor_hash genesis ≡ false)
      → Advances target w snap
  unfolding walk_step forward_step
  forward_step-Advances target w snap i below p fresh = (
    record w {
      target_ancestor_hash = p.parent;
      target_ancestor = p.parent_diff;
      fast_forward_stack = w.target_ancestor ∷ w.fast_forward_stack;
    },
    snap,
    rw (lt→not_leb _ _ below, fresh, p.previous, i.shows.over.store, p.stored),
    record {
      target_stored = p.stored;
      head_stored = i.head_stored;
      path = (w.target_ancestor_hash, p.leads, i.path);
      shows = i.shows;
    },
    omega (arith, p.height),
  )

  -- What is stored at the genesis hash is the genesis.
  at_genesis :
      (h : HashDigest) (d : BlockWithDiff)
      → IsStored kv s h d
      → h ≡ genesis
      → d ≡ tree.blocks.genesis_diff
  at_genesis h d stored e =
      some-injective-ok
        (sym stored ∙ ap (λ (k : HashDigest). get_block_diff kv k s) e ∙ tree.blocks.genesis_stored)

  -- Any other block stands above the genesis.
  above_genesis :
      (h : HashDigest) (d : BlockWithDiff)
      → IsStored kv s h d
      → h ≢ genesis
      → get_diff_height tree.blocks.genesis_diff < get_diff_height d
  above_genesis h d stored fresh =
      let p = tree.blocks.parents h d stored fresh in
      omega (arith, p.height, tree.blocks.lowest p.parent p.parent_diff p.stored)

  not_genesis : (h : HashDigest) → h ≢ genesis → digest_beq h genesis ≡ false
  not_genesis h fresh = ground (arith, digest_beq_iff h genesis)

  -- Where the two ancestors differ the walk can go on: neither assertion fails.
  pub walk_step-Advances :
      (target : HashDigest) (w : WalkState) (snap : LedgerSnapshot S)
      → IsWalk target w snap
      → w.target_ancestor_hash ≢ w.head_ancestor_hash
      → Advances target w snap
  walk_step-Advances target w snap i apart =
      elim (dec_le (get_diff_height w.target_ancestor) (get_diff_height w.head_ancestor)) [
        | yes above ↦
            let fresh : w.head_ancestor_hash ≢ genesis = λ e.
              let d = at_genesis w.head_ancestor_hash w.head_ancestor i.head_stored e in
              let up =
                above_genesis w.target_ancestor_hash w.target_ancestor i.target_stored
                  (λ e'. apart (e' ∙ sym e)) in
              absurd (omega (arith, ap get_diff_height d)) in
            revert_step-Advances target w snap i above
              (tree.blocks.parents w.head_ancestor_hash w.head_ancestor i.head_stored fresh)
              (not_genesis w.head_ancestor_hash fresh)
        | no below ↦
            let fresh : w.target_ancestor_hash ≢ genesis = λ e.
              let d = at_genesis w.target_ancestor_hash w.target_ancestor i.target_stored e in
              let low = tree.blocks.lowest w.head_ancestor_hash w.head_ancestor i.head_stored in
              absurd (omega (arith, ap get_diff_height d)) in
            forward_step-Advances target w snap i (omega arith)
              (tree.blocks.parents w.target_ancestor_hash w.target_ancestor i.target_stored fresh)
              (not_genesis w.target_ancestor_hash fresh)
      ]
