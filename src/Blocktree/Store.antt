-- ===== src/Blocktree/Store.antt =====
-- The operations of blocktree.rs that change the store: `new`, `set_head` and `insert_block`.
use ironcoin.Base.{◌+◌, ◌%◌, ◌^◌, Option, none, some, List, not, nat_eq, ◌==◌, if◌then◌else◌}
use ironcoin.Base.Run
use ironcoin.Base.Run.{Run, ok, err, ok_or, IroncError}
use ironcoin.Base.Action.{Action, lift, pure, raise, reads, for_each, ◌>>=◌, ◌>>◌}
use ironcoin.Balance.{apply_patch}
use ironcoin.Balance.Snapshot
use ironcoin.Balance.Snapshot.{LedgerSnapshot, apply_block, make_patches}
use ironcoin.Block.{decode_hash, decode_previous, get_height, verify}
use ironcoin.Blocktree.Genesis.{make_genesis_block_diff}
use ironcoin.Blocktree.Keys.{
  blocktree_ledger, blocktree_reader, format_block_key, genesis_field, get_block, get_head_hash,
  head_field, set_block_diff,
}
use ironcoin.Blocktree.Walk.{snapshot_at}
use ironcoin.Crypto.HashDigest
use ironcoin.Crypto.HashDigest.{HashDigest, digest_beq}
use ironcoin.External.{Base64, Sodium}
use ironcoin.Message.Codecs.{Codecs}
use ironcoin.Message.Ledger.{BalancePatch, HashedBlock}
use ironcoin.Store.{KeyValueStore, set_message}

module _ {S : Type 0} (kv : KeyValueStore S) ⦃sodium : Sodium⦄ ⦃base64 : Base64⦄
    ⦃codecs : Codecs⦄ where
  -- The loop that applies patches to the balances of the store.
  unfoldable pub apply_patches : List BalancePatch → Action S (Unit {0})
  unfolding for_each apply_patch
  apply_patches = for_each (apply_patch (blocktree_ledger kv))

  -- The branch of `new` that sets up an empty store.
  unfoldable pub install_genesis : HashedBlock → Action S (Unit {0})
  unfolding decode_hash make_genesis_block_diff set_message format_block_key apply_patches
  install_genesis new_genesis_block = do
    new_genesis_hash ← lift (decode_hash new_genesis_block)
    genesis ← lift (make_genesis_block_diff new_genesis_block)
    kv.set_bytes genesis_field new_genesis_hash.bytes
    kv.set_bytes head_field new_genesis_hash.bytes
    set_message kv codecs.block_with_diff (format_block_key new_genesis_hash) genesis
    apply_patches genesis.diff

  unfoldable pub open_with : Option HashDigest → Option HashedBlock → Action S (Unit {0})
  unfolding decode_hash digest_beq install_genesis
  open_with (some genesis_hash) (some new_genesis_block) = do
    new_genesis_hash ← lift (decode_hash new_genesis_block)
    if not (digest_beq new_genesis_hash genesis_hash)
        then raise (IroncError.other_genesis genesis_hash.bytes new_genesis_hash.bytes)
        else pure tt
  open_with (some genesis_hash) none = pure tt
  open_with none (some new_genesis_block) = install_genesis new_genesis_block
  open_with none none = raise IroncError.no_genesis

  -- `BlockTreeStore::new`, which leaves the tree in the store that it is given.
  unfoldable pub new : Option HashedBlock → Action S (Unit {0})
  unfolding HashDigest.from_slice open_with
  new new_genesis = do
    found ← reads (λ s. kv.get_bytes s genesis_field)
    maybe_genesis_hash ← lift (elim found [
      | some hash_raw ↦ Run.◌>>=◌ (HashDigest.from_slice hash_raw) (λ digest. ok (some digest))
      | none ↦ ok none
    ])
    open_with maybe_genesis_hash new_genesis

  unfoldable pub set_head : HashDigest → Action S (Unit {0})
  unfolding get_head_hash digest_beq get_block snapshot_at make_patches apply_patches
  set_head new_head_hash = do
    head_hash ← reads (get_head_hash kv)
    if digest_beq new_head_hash head_hash then pure tt else (do
      found ← reads (get_block kv new_head_hash)
      _ ← lift (ok_or found (IroncError.unknown_head new_head_hash.bytes))
      snapshot ← reads (snapshot_at kv new_head_hash)
      apply_patches (make_patches snapshot)
      kv.set_bytes head_field new_head_hash.bytes)

  -- The block of `insert_block` in braces: the patches that a block makes at its parent.
  unfoldable pub block_patches : HashDigest → HashedBlock → S → Run (List BalancePatch)
  unfolding snapshot_at Snapshot.commit apply_block make_patches
  block_patches previous_hash block s = Run.◌>>=◌ (snapshot_at kv previous_hash s) (λ snapshot.
      let (r, applied) = apply_block (blocktree_reader kv) block (Snapshot.commit snapshot) in
      Run.◌>>=◌ r (λ _. ok (make_patches applied)))

  unfoldable pub insert_block : HashedBlock → Action S (Unit {0})
  unfolding verify get_height decode_previous get_block block_patches set_block_diff
  insert_block block = do
    lift (verify block)
    let block_height = get_height block
    previous_hash ← lift (decode_previous block)
    found ← reads (get_block kv previous_hash)
    previous_block ← lift (ok_or found (IroncError.previous_missing previous_hash.bytes))
    let expected_height = (get_height previous_block + 1) % 2 ^ 32
    if not (expected_height == block_height)
        then raise (IroncError.invalid_height block_height expected_height)
        else (do
          patches ← reads (block_patches previous_hash block)
          set_block_diff kv (record { hashed_block = some block; diff = patches }))
