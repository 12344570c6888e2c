-- ===== src/Tests/Trees.antt =====
-- The theorems on the block tree, on the tree of a genesis and one block.
use ironcoin.Message.Rpc.{BlocktreeStatus}
use ironcoin.Base.{
  Bytes, ◌≡◌, ◌≢◌, refl, sym, ◌∙◌, ap, subst, some, List, [], ◌∷◌, inl, inr, ◌⊎◌, list_beq, arith,
  none, min,
}
use ironcoin.Base.Run.{Run, ok, refuse, IroncError, Panic, err}
use ironcoin.Block.{decode_hash, get_block, get_diff_height, verify}
use ironcoin.Blocktree.Ancestry.{snapshot_at-Shows}
use ironcoin.Blocktree.Steps.{Shows}
use ironcoin.Blocktree.Genesis.{collect_tokens, genesis_patches}
use ironcoin.Blocktree.Given.{given}
use ironcoin.Blocktree.Growth.{IsInserted, insert_block-IsInserted}
use ironcoin.Blocktree.Insertion.{HasRoom, IsFresh, extended}
use ironcoin.Blocktree.Keys.{get_block_diff}
use ironcoin.Blocktree.Moves.{set_head-IsTree, set_head-refused}
use ironcoin.Blocktree.Planting.{IsOnly, opened-IsTree}
use ironcoin.Blocktree.Granted.{granted}
use ironcoin.Blocktree.Opening.{new-IsTree}
use ironcoin.Blocktree.Reach.{Continues, Reaches, Step, Reaches-Continues}
use ironcoin.Blocktree.Store
use ironcoin.Blocktree.Tree.{IsStored, IsTree, States}
use ironcoin.Blocktree.Walk.{snapshot_at}
use ironcoin.Balance.Snapshot.{LedgerSnapshot}
use ironcoin.Crypto.HashDigest.{HashDigest}
use ironcoin.Message.Ledger.{BalancePatch, BlockWithDiff, get_transfers, new_balance, new_patch}
use ironcoin.Service.Chain.{Lists, get_blocktree-IsAncestry}
use ironcoin.Service.Answers.{get_blocktree}
use ironcoin.Store.{HashMapStore, hash_map_store}
use ironcoin.Tests.Chain
use ironcoin.Tests.Chain.{
  alice, block, block_hash, genesis, genesis_hash, gift_tx, started, started_run, extended_run,
  headed, headed_run,
}
use ironcoin.Tests.World.{base64, codecs, hash_map-HasLaws, nothing-IsEmpty, sodium}

genesis_verified : verify genesis ≡ ok tt
unfolding verify ironcoin.Tx.verify_signatures
genesis_verified = refl

genesis_named : decode_hash genesis ≡ ok genesis_hash
unfolding decode_hash
genesis_named = refl

genesis_single : (get_block genesis).transactions ≡ gift_tx ∷ []
unfolding get_block
genesis_single = refl

genesis_collected : collect_tokens [] (get_transfers gift_tx) ≡ ok ((alice, 50) ∷ [])
unfolding collect_tokens
genesis_collected = refl

abbrev genesis_diff : BlockWithDiff
genesis_diff = record { hashed_block = some genesis; diff = genesis_patches ((alice, 50) ∷ []) }

new-IsTree_example :
    (s' : HashMapStore) × (patches : List BalancePatch) × (Store.new hash_map_store
        (some genesis)
        []
      ≡ (ok tt, s'))
    × IsTree hash_map_store s' genesis_hash genesis_hash (λ _. granted (get_transfers gift_tx))
    × IsOnly hash_map_store hash_map-HasLaws s' genesis_hash
        (record { hashed_block = some genesis; diff = patches })
new-IsTree_example =
    new-IsTree hash_map_store hash_map-HasLaws [] genesis genesis_hash gift_tx nothing-IsEmpty
      genesis_verified genesis_named genesis_single ((refl, omega arith), tt)

abbrev pub first_states : States
first_states _ = given ((alice, 50) ∷ [])

-- The tree of the genesis.
pub started-IsTree :
    IsTree hash_map_store started genesis_hash genesis_hash first_states
    × IsOnly hash_map_store hash_map-HasLaws started genesis_hash genesis_diff
started-IsTree =
    let (s', e, tree, only) =
      opened-IsTree hash_map_store hash_map-HasLaws [] genesis genesis_hash gift_tx
        ((alice, 50) ∷ []) nothing-IsEmpty genesis_verified genesis_named genesis_single
        genesis_collected in
    subst
      (λ (s : HashMapStore).
        IsTree hash_map_store s genesis_hash genesis_hash first_states
        × IsOnly hash_map_store hash_map-HasLaws s genesis_hash genesis_diff)
      (ap (λ (p : Run (Unit {0}) × HashMapStore). p.1) (sym e ∙ started_run)) (tree, only)

genesis_height : get_diff_height genesis_diff ≡ 0
unfolding get_diff_height
genesis_height = refl

pub started-HasRoom : HasRoom hash_map_store started
started-HasRoom h d stored =
    let low = ap get_diff_height (started-IsTree.1 h d stored).1 in
    omega (arith, low, genesis_height)

block_named : decode_hash block ≡ ok block_hash
unfolding decode_hash
block_named = refl

apart : genesis_hash ≢ block_hash
apart e = ground arith

pub block-IsFresh : (h : HashDigest) → decode_hash block ≡ ok h → IsFresh hash_map_store started h
block-IsFresh h named d stored =
    let here = (started-IsTree.1 h d stored).0 in
    let same : ok block_hash ≡ ok h = sym block_named ∙ named in apart (here ∙ sym (cc same))

insert_block-IsInserted_example :
    ((s' : HashMapStore) × (Store.insert_block hash_map_store block started ≡ (ok tt, s'))
      × IsInserted hash_map_store started genesis_hash genesis_hash first_states started-IsTree.0
          block s')
    ⊎ ((c : IroncError ⊎ Panic) × (Store.insert_block hash_map_store block started
          ≡ (refuse c, started)))
insert_block-IsInserted_example =
    insert_block-IsInserted hash_map_store started genesis_hash genesis_hash first_states
      started-IsTree.0 hash_map-HasLaws block started-HasRoom block-IsFresh

-- The tree with the block, under the head that it had.
abbrev HasTree : HashMapStore → HashDigest → Type 0
HasTree s head = (states : States) × IsTree hash_map_store s genesis_hash head states

extended-HasTree : HasTree Chain.extended genesis_hash
extended-HasTree =
    elim (insert_block-IsInserted hash_map_store started genesis_hash genesis_hash first_states
      started-IsTree.0 hash_map-HasLaws block started-HasRoom block-IsFresh) [
        | inl (s', e, i) ↦
            let same : s' ≡ Chain.extended =
              ap (λ (p : Run (Unit {0}) × HashMapStore). p.1) (sym e ∙ extended_run) in
            subst (λ (s : HashMapStore). HasTree s genesis_hash) same
              (extended i.hash i.accounts first_states, i.grown)
        | inr (inl c, e) ↦ cc (sym e ∙ extended_run)
        | inr (inr c, e) ↦ cc (sym e ∙ extended_run)
      ]

abbrev block_diff : BlockWithDiff
block_diff = record {
  hashed_block = some block;
  diff =
      new_patch (11 ∷ []) (new_balance 50 0) (new_balance 30 1)
      ∷ new_patch (22 ∷ []) (new_balance 0 0) (new_balance 20 0)
      ∷ [];
}

block-IsStored : IsStored hash_map_store Chain.extended block_hash block_diff
unfolding get_block_diff hash_map_store list_beq
block-IsStored = refl

snapshot_at-Shows_example :
    (snap : LedgerSnapshot HashMapStore) × (snapshot_at hash_map_store block_hash Chain.extended
      ≡ ok snap)
    × Shows hash_map_store Chain.extended genesis_hash genesis_hash extended-HasTree.0
        extended-HasTree.1 block_hash snap
snapshot_at-Shows_example =
    snapshot_at-Shows hash_map_store Chain.extended genesis_hash genesis_hash extended-HasTree.0
      extended-HasTree.1 block_hash block_diff block-IsStored

set_head-IsTree_example :
    (s' : HashMapStore) × (Store.set_head hash_map_store block_hash Chain.extended ≡ (ok tt, s'))
    × IsTree hash_map_store s' genesis_hash block_hash extended-HasTree.0
    × ((k : HashDigest)
        → get_block_diff hash_map_store k s' ≡ get_block_diff hash_map_store k Chain.extended)
set_head-IsTree_example =
    set_head-IsTree hash_map_store hash_map-HasLaws Chain.extended genesis_hash genesis_hash
      extended-HasTree.0 extended-HasTree.1 block_hash block_diff block-IsStored

block-unknown : (d : BlockWithDiff) → get_block_diff hash_map_store block_hash started ≢ ok (some d)
block-unknown d = block-IsFresh block_hash block_named d

set_head-refused_example :
    ((get_block_diff hash_map_store block_hash started ≡ ok none)
      × (Store.set_head hash_map_store block_hash started
          ≡ (err (IroncError.unknown_head block_hash.bytes), started)))
    ⊎ ((c : IroncError ⊎ Panic) × (get_block_diff hash_map_store block_hash started ≡ refuse c)
        × (Store.set_head hash_map_store block_hash started ≡ (refuse c, started)))
set_head-refused_example =
    set_head-refused hash_map_store hash_map-HasLaws started genesis_hash genesis_hash first_states
      started-IsTree.0 block_hash block-unknown

steps : Reaches hash_map_store started headed
steps =
    Reaches.next (Step.inserted block (ok tt) started-HasRoom block-IsFresh extended_run)
      (Reaches.next (Step.moved block_hash (ok tt) headed_run) Reaches.done)

Reaches-Continues_example : Continues hash_map_store started genesis_hash first_states headed
Reaches-Continues_example =
    Reaches-Continues hash_map_store hash_map-HasLaws started headed genesis_hash genesis_hash
      first_states steps started-IsTree.0

from_zero : get_diff_height started-IsTree.0.blocks.genesis_diff ≡ 0
from_zero =
    let same =
      (started-IsTree.1 genesis_hash started-IsTree.0.blocks.genesis_diff
        started-IsTree.0.blocks.genesis_stored).1 in
    sym (ap get_diff_height same) ∙ genesis_height

get_blocktree-IsAncestry_example :
    (ancestors : List Bytes) × (get_blocktree hash_map_store
        (record { start_height = some 0 })
        started
      ≡ ok (record {
        status = BlocktreeStatus.ok;
        description = none;
        head = some genesis_hash.bytes;
        head_height = some (get_diff_height started-IsTree.0.head_diff);
        start_height = some (min 0 (get_diff_height started-IsTree.0.head_diff));
        ancestors = ancestors;
      }))
    × Lists hash_map_store started genesis_hash genesis_hash first_states started-IsTree.0 from_zero
        0 ancestors
get_blocktree-IsAncestry_example =
    get_blocktree-IsAncestry hash_map_store started genesis_hash genesis_hash first_states
      started-IsTree.0 from_zero 0
