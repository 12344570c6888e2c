-- ===== src/Service/Pending.antt =====
-- The pending transactions of service.rs: pruning, and `pub_transaction`.
use ironcoin.Base.{none, some, List, [], ◌∷◌, ◌++◌}
use ironcoin.Base.Run.{Run, ok, err, panic, Panic}
use ironcoin.Base.Action.{Action, for_each, pure, ◌>>=◌}
use ironcoin.Balance.Snapshot.{LedgerSnapshot, apply_transaction}
use ironcoin.Blocktree.Keys.{blocktree_reader}
use ironcoin.Blocktree.Walk.{snapshot}
use ironcoin.External.{Base64, Sodium}
use ironcoin.Message.Codecs.{Codecs}
use ironcoin.Message.Ledger.{Transaction}
use ironcoin.Message.Rpc.{PubStatus, PubTransactionRequest, PubTransactionResponse}
use ironcoin.Service.State.{IroncService}
use ironcoin.Store.{KeyValueStore}
use ironcoin.Tx.{verify_signatures}

-- What the filter does with a transaction once it has been tried, and with those after it.
abbrev pub retain_after :
    {L : Type 0}
    → Transaction
    → Run (Unit {0}) × L
    → Action L (List Transaction)
    → Run (List Transaction) × L
retain_after tx (ok _, s) rest = (rest >>= (λ kept. pure (tx ∷ kept))) s
retain_after tx (err _, s) rest = rest s
retain_after tx (panic p, s) rest = (panic p, s)

-- `assert!(apply_result.is_ok())`
abbrev pub asserted : {L : Type 0} → Run (Unit {0}) × L → Run (Unit {0}) × L
asserted (ok _, s) = (ok tt, s)
asserted (err _, s) = (panic Panic.apply_result_asserted, s)
asserted (panic p, s) = (panic p, s)

module _ {S Socket L : Type 0} where
  -- The pending transactions after the filter.
  abbrev pub keep_pending :
      IroncService S Socket → Run (List Transaction) × L → Run (Unit {0}) × IroncService S Socket
  keep_pending service (ok pending, _) = (ok tt, record service { pending_transactions = pending })
  keep_pending service (err e, _) = (err e, record service { pending_transactions = [] })
  keep_pending service (panic p, _) = (panic p, record service { pending_transactions = [] })

  -- The answer to a transaction that has been tried.
  abbrev pub answer_transaction :
      Transaction
      → IroncService S Socket
      → Run (Unit {0}) × L
      → Run PubTransactionResponse × IroncService S Socket
  answer_transaction transaction service (ok _, _) = (
    ok (record { status = PubStatus.ok; description = none }),
    record service { pending_transactions = service.pending_transactions ++ transaction ∷ [] },
  )
  answer_transaction transaction service (err e, _) =
      (ok (record { status = PubStatus.invalid_request; description = some e }), service)
  answer_transaction transaction service (panic p, _) = (panic p, service)

module _ {S : Type 0} (kv : KeyValueStore S) ⦃sodium : Sodium⦄ ⦃base64 : Base64⦄
    ⦃codecs : Codecs⦄ where
  -- The filter of `prune_invalid_transactions`, which shares one snapshot.
  unfoldable pub retain_valid : List Transaction → Action (LedgerSnapshot S) (List Transaction)
  unfolding apply_transaction
  retain_valid [] s = (ok [], s)
  retain_valid (tx ∷ txs) s =
      retain_after tx (apply_transaction (blocktree_reader kv) tx s) (retain_valid txs)

  -- The loop of `pub_transaction` that replays what is pending, with its assertion.
  unfoldable pub replay_pending : List Transaction → Action (LedgerSnapshot S) (Unit {0})
  unfolding for_each apply_transaction
  replay_pending = for_each (λ tx s. asserted (apply_transaction (blocktree_reader kv) tx s))

  module _ {Socket : Type 0} where
    unfoldable pub prune_invalid_transactions : Action (IroncService S Socket) (Unit {0})
    unfolding retain_valid snapshot
    prune_invalid_transactions service =
        keep_pending service
          (retain_valid service.pending_transactions (snapshot kv service.blocktree))

    -- The end of `pub_transaction`, once what is pending has been replayed.
    unfoldable pub try_transaction :
        Transaction
        → IroncService S Socket
        → Run (Unit {0}) × LedgerSnapshot S
        → Run PubTransactionResponse × IroncService S Socket
    unfolding apply_transaction
    try_transaction transaction service (ok _, replayed) =
        answer_transaction transaction service
          (apply_transaction (blocktree_reader kv) transaction replayed)
    try_transaction transaction service (err e, _) = (err e, service)
    try_transaction transaction service (panic p, _) = (panic p, service)

    unfoldable pub add_pending : Transaction → Action (IroncService S Socket) PubTransactionResponse
    unfolding replay_pending try_transaction snapshot
    add_pending transaction service =
        try_transaction transaction service
          (replay_pending service.pending_transactions (snapshot kv service.blocktree))

    unfoldable pub check_transaction :
        Transaction → Action (IroncService S Socket) PubTransactionResponse
    unfolding verify_signatures prune_invalid_transactions add_pending
    check_transaction transaction service = elim (verify_signatures transaction) [
      | ok _ ↦ (prune_invalid_transactions >>= (λ _. add_pending transaction)) service
      | err e ↦ (ok (record { status = PubStatus.invalid_request; description = some e }), service)
      | panic p ↦ (panic p, service)
    ]

    unfoldable pub pub_transaction :
        PubTransactionRequest → Action (IroncService S Socket) PubTransactionResponse
    unfolding check_transaction
    pub_transaction request = elim request.transaction [
      | none ↦ pure (record { status = PubStatus.invalid_request; description = none })
      | some transaction ↦ check_transaction transaction
    ]
