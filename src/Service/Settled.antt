-- ===== src/Service/Settled.antt =====
-- What of the service of service.rs a handler leaves as it is.
use ironcoin.Base.{◌≡◌, refl, ◌∙◌, List, Option-cases, inl, inr}
use ironcoin.Base.Run.{Run, ok, err, panic, Run-cases}
use ironcoin.Base.Action.{and_then}
use ironcoin.Balance.Snapshot.{LedgerSnapshot}
use ironcoin.Blocktree.Walk.{snapshot}
use ironcoin.Tx.{verify_signatures}
use ironcoin.External.{Base64, Sodium}
use ironcoin.Message.Codecs.{Codecs}
use ironcoin.Message.Ledger.{Transaction}
use ironcoin.Message.Rpc.{PubTransactionRequest}
use ironcoin.Service.Pending.{
  answer_transaction, keep_pending, add_pending, check_transaction, prune_invalid_transactions,
  pub_transaction, replay_pending, retain_valid, try_transaction,
}
use ironcoin.Service.State.{IroncService}
use ironcoin.Store.{KeyValueStore}

module _ {S Socket : Type 0} where
  -- Everything of the service but its pending transactions stays.
  pub record IsSettled (service service' : IroncService S Socket) : Type 0 where
    pub blocktree : service'.blocktree ≡ service.blocktree
    pub socket : service'.pub_block_socket ≡ service.pub_block_socket
    pub endpoint : service'.pub_block_endpoint_str ≡ service.pub_block_endpoint_str

  pub same-IsSettled : (service : IroncService S Socket) → IsSettled service service
  same-IsSettled service = record { blocktree = refl; socket = refl; endpoint = refl }

  pub IsSettled-trans :
      (a b c : IroncService S Socket) → IsSettled a b → IsSettled b c → IsSettled a c
  IsSettled-trans a b c i j = record {
    blocktree = j.blocktree ∙ i.blocktree;
    socket = j.socket ∙ i.socket;
    endpoint = j.endpoint ∙ i.endpoint;
  }

  -- A chain of calls that each leave the block tree.
  pub and_then-blocktree :
      {A B : Type 0} (tree : S) (p : Run A × IroncService S Socket)
      (f : A → IroncService S Socket → Run B × IroncService S Socket)
      → p.1.blocktree ≡ tree
      → ((a : A) (s : IroncService S Socket) → s.blocktree ≡ tree → (f a s).1.blocktree ≡ tree)
      → (and_then p f).1.blocktree ≡ tree
  and_then-blocktree tree (ok a, s) f i next = next a s i
  and_then-blocktree tree (err e, s) f i next = i
  and_then-blocktree tree (panic c, s) f i next = i

  answer-IsSettled :
      {L : Type 0} (tx : Transaction) (service : IroncService S Socket)
      (answer : Run (Unit {0}) × L)
      → IsSettled service (answer_transaction tx service answer).1
  answer-IsSettled tx service (ok _, _) = record {
    blocktree = refl;
    socket = refl;
    endpoint = refl;
  }
  answer-IsSettled tx service (err e, _) = same-IsSettled service
  answer-IsSettled tx service (panic p, _) = same-IsSettled service

  keep-IsSettled :
      {L : Type 0} (service : IroncService S Socket) (kept : Run (List Transaction) × L)
      → IsSettled service (keep_pending service kept).1
  keep-IsSettled service (ok _, _) = record { blocktree = refl; socket = refl; endpoint = refl }
  keep-IsSettled service (err e, _) = record { blocktree = refl; socket = refl; endpoint = refl }
  keep-IsSettled service (panic p, _) = record { blocktree = refl; socket = refl; endpoint = refl }

module _ {S Socket : Type 0} (kv : KeyValueStore S) ⦃sodium : Sodium⦄ ⦃base64 : Base64⦄
    ⦃codecs : Codecs⦄ where
  try_transaction-IsSettled :
      (tx : Transaction) (service : IroncService S Socket)
      (replay : Run (Unit {0}) × LedgerSnapshot S)
      → IsSettled service (try_transaction kv tx service replay).1
  unfolding try_transaction
  try_transaction-IsSettled tx service (ok _, replayed) = answer-IsSettled tx service _
  try_transaction-IsSettled tx service (err e, _) = same-IsSettled service
  try_transaction-IsSettled tx service (panic p, _) = same-IsSettled service

  pub prune-IsSettled :
      (service : IroncService S Socket)
      → IsSettled service (prune_invalid_transactions kv service).1
  unfolding prune_invalid_transactions
  prune-IsSettled service =
      keep-IsSettled service
        (retain_valid kv service.pending_transactions (snapshot kv service.blocktree))

  -- What follows the pruning is run on the service that the pruning leaves.
  after-IsSettled :
      (tx : Transaction) (service : IroncService S Socket)
      (pruned : Run (Unit {0}) × IroncService S Socket)
      → IsSettled service pruned.1
      → IsSettled service (and_then pruned (λ _. add_pending kv tx)).1
  unfolding add_pending
  after-IsSettled tx service (ok _, service') i =
      let j =
        try_transaction-IsSettled tx service'
          (replay_pending kv service'.pending_transactions (snapshot kv service'.blocktree)) in
      IsSettled-trans service service' _ i j
  after-IsSettled tx service (err e, _) i = i
  after-IsSettled tx service (panic p, _) i = i

  check-IsSettled :
      (tx : Transaction) (service : IroncService S Socket)
      → IsSettled service (check_transaction kv tx service).1
  unfolding check_transaction prune_invalid_transactions
  check-IsSettled tx service = elim (Run-cases (verify_signatures tx)) [
    | inr (inl e, refused) ↦ rw (refused, check_transaction) (same-IsSettled service)
    | inr (inr p, refused) ↦ rw (refused, check_transaction) (same-IsSettled service)
    | inl (_, signed) ↦
        rw (signed, check_transaction)
          (after-IsSettled tx service (prune_invalid_transactions kv service) (
            keep-IsSettled service
              (retain_valid kv service.pending_transactions (snapshot kv service.blocktree))))
  ]

  pub pub_transaction-IsSettled :
      (request : PubTransactionRequest) (service : IroncService S Socket)
      → IsSettled service (pub_transaction kv request service).1
  unfolding pub_transaction
  pub_transaction-IsSettled request service = elim (Option-cases request.transaction) [
    | inl missing ↦ rw (missing, pub_transaction) (same-IsSettled service)
    | inr (tx, there) ↦ rw (there, pub_transaction) (check-IsSettled tx service)
  ]
