-- ===== src/Service/Heads.antt =====
-- How service.rs moves the head: `set_head`, and the block that a successful stake makes.
use ironcoin.Base.{ℕ, ◌+◌, ◌%◌, ◌^◌, none, some, List, [], Bytes}
use ironcoin.Base.Run
use ironcoin.Base.Run.{Run, ok, ok_or, IroncError}
use ironcoin.Base.Action.{Action, gets, lift, modify, pure, ◌>>=◌, ◌>>◌}
use ironcoin.Block.{
  compute_hash, decode_hash, decode_previous, decode_proof, decode_staker_pk, get_height,
  sign_block,
}
use ironcoin.Blocktree.Keys.{get_block, get_head_hash}
use ironcoin.Blocktree.Store as Tree
use ironcoin.External.{Base64, Sodium}
use ironcoin.Message.Codecs.{Codecs}
use ironcoin.Message.Ledger.{HashedBlock, Transaction, get_signed_block}
use ironcoin.Service.Pending.{prune_invalid_transactions}
use ironcoin.Service.State.{IroncService, on_blocktree, on_socket, read_blocktree}
use ironcoin.Staking.{BlockTemplate}
use ironcoin.Store.{KeyValueStore}

-- The unsigned block of a template.
unfoldable pub unsigned_block : BlockTemplate → ℕ → List Transaction → HashedBlock
unsigned_block template height transactions = record {
  hash = none;
  signed_block = some (record {
    signature = none;
    block = some (record {
      staker_pk = some template.staker_pk.bytes;
      previous = some template.previous_block.bytes;
      timestamp = some template.timestamp;
      height = some height;
      target_hash = some template.proof_hash.bytes;
      transactions = transactions;
    });
  });
}

module _ ⦃sodium : Sodium⦄ ⦃codecs : Codecs⦄ where
  -- The signature and the hash of the block of a template.
  unfoldable pub stake_block : BlockTemplate → ℕ → List Transaction → Run HashedBlock
  unfolding sign_block compute_hash unsigned_block
  stake_block template height transactions =
      let staked_block = unsigned_block template height transactions in
      Run.◌>>=◌ (sign_block template.staker_sk (get_signed_block staked_block)) (λ signed_block.
        Run.◌>>=◌ (compute_hash (record staked_block { signed_block = some signed_block }))
          (λ (_, hashed_block). ok hashed_block))

module _ {S Socket : Type 0} where
  -- `drain()`: the pending transactions move into the block.
  unfoldable pub drain_pending : Action (IroncService S Socket) (List Transaction)
  drain_pending = do
    pending ← gets (λ service. service.pending_transactions)
    modify (λ service. record service { pending_transactions = [] })
    pure pending

module _ {S Socket : Type 0} (kv : KeyValueStore S) ⦃sodium : Sodium⦄ ⦃base64 : Base64⦄
    ⦃codecs : Codecs⦄ where
  -- `on_successful_stake` up to the hash.
  unfoldable pub make_staked_block : BlockTemplate → Action (IroncService S Socket) HashedBlock
  unfolding get_head_hash get_block get_height prune_invalid_transactions drain_pending stake_block
  make_staked_block template = do
    _ ← read_blocktree (get_head_hash kv)
    found ← read_blocktree (get_block kv template.previous_block)
    previous_block ←
        lift (ok_or found (IroncError.staked_previous_missing template.previous_block.bytes))
    prune_invalid_transactions kv
    transactions ← drain_pending
    lift (stake_block template ((get_height previous_block + 1) % 2 ^ 32) transactions)

module _ {S Socket : Type 0} (kv : KeyValueStore S) (nb_write : Bytes → Action Socket (Unit {0}))
    ⦃sodium : Sodium⦄ ⦃base64 : Base64⦄ ⦃codecs : Codecs⦄ where
  unfoldable pub publish_new_head : HashedBlock → Action (IroncService S Socket) (Unit {0})
  publish_new_head head = do
    head_bytes ← lift (codecs.hashed_block.write_to_bytes head)
    on_socket (nb_write head_bytes)

  -- The message that is printed decodes three fields, each of which may fail.
  unfoldable pub set_head : HashedBlock → Action (IroncService S Socket) (Unit {0})
  unfolding decode_hash decode_previous decode_staker_pk decode_proof Tree.set_head
      prune_invalid_transactions publish_new_head
  set_head head = do
    head_hash ← lift (decode_hash head)
    _ ← lift (decode_previous head)
    on_blocktree (Tree.set_head kv head_hash)
    prune_invalid_transactions kv
    _ ← lift (decode_staker_pk head)
    _ ← lift (decode_proof head)
    publish_new_head head

  unfoldable pub on_successful_stake : BlockTemplate → Action (IroncService S Socket) (Unit {0})
  unfolding make_staked_block Tree.insert_block set_head
  on_successful_stake template = do
    hashed_block ← make_staked_block kv template
    on_blocktree (Tree.insert_block kv hashed_block)
    set_head hashed_block
