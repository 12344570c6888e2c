-- ===== src/Tests/Waiting.antt =====
-- The pending transactions, over the genesis of the test chain.
use ironcoin.Base.{ℕ, ◌≡◌, refl, none, some, List, [], ◌∷◌, list_beq}
use ironcoin.Base.Run.{panic, Panic}
use ironcoin.Message.Ledger.{Transaction, Transfer}
use ironcoin.Service.Pending.{pub_transaction}
use ironcoin.Service.State.{IroncService}
use ironcoin.Store.{HashMapStore, hash_map_store}
use ironcoin.Tests.Chain.{payment, started}
use ironcoin.Tests.World.{base64, codecs, sodium}

abbrev pub service : IroncService HashMapStore (Unit {0})
service = record {
  blocktree = started;
  pending_transactions = [];
  pub_block_socket = tt;
  pub_block_endpoint_str = [];
}

abbrev move : ℕ → Transfer
move op = record {
  op_index = some op;
  tokens = some 20;
  source_pk = some (11 ∷ []);
  destination_pk = some (22 ∷ []);
}

abbrev of_moves : List Transfer → Transaction
of_moves transfers = record {
  signatures = [];
  commit = some (record { bounty_pk = none; bounty = none; transfers = transfers });
}

-- The second transfer of the first transaction is refused, and the first one stays in the snapshot
-- of the filter: the second transaction is kept for it, and then fails in the replay.
left_over :
    (pub_transaction hash_map_store
      (record { transaction = some payment })
      (record service {
        pending_transactions = of_moves (move 0 ∷ move 9 ∷ []) ∷ of_moves (move 1 ∷ []) ∷ [];
      })).0
    ≡ panic Panic.apply_result_asserted
unfolding pub_transaction list_beq ironcoin.Blocktree.Keys.get_balance hash_map_store
    ironcoin.Crypto.PublicKey.public_key_beq
left_over = refl
