-- ===== src/Service/Mempool.antt =====
-- The invariant of the pending transactions of service.rs: replayed from the head, each of them is
-- accepted.
use ironcoin.Base.{◌≡◌, ap, List, [], ◌∷◌}
use ironcoin.Base.Run.{Run, ok}
use ironcoin.Balance.Snapshot.{LedgerSnapshot, apply_transaction}
use ironcoin.Blocktree.Keys.{blocktree_reader}
use ironcoin.Blocktree.Walk.{snapshot}
use ironcoin.External.{Base64, Sodium}
use ironcoin.Message.Codecs.{Codecs}
use ironcoin.Message.Ledger.{Transaction}
use ironcoin.Service.Pending.{prune_invalid_transactions, retain_valid}
use ironcoin.Service.State.{IroncService}
use ironcoin.Store.{KeyValueStore}

module _ {S : Type 0} (kv : KeyValueStore S) ⦃sodium : Sodium⦄ ⦃base64 : Base64⦄
    ⦃codecs : Codecs⦄ where
  -- Transactions that are accepted one after the other, from one snapshot to another.
  abbrev pub Replays : List Transaction → LedgerSnapshot S → LedgerSnapshot S → Type 0
  Replays [] s s' = s ≡ s'
  Replays (tx ∷ txs) s s' =
      (s₁ : LedgerSnapshot S) × (apply_transaction (blocktree_reader kv) tx s ≡ (ok tt, s₁))
      × Replays txs s₁ s'

  -- The filter keeps all of them.
  retain_valid-Replays :
      (txs : List Transaction) (s s' : LedgerSnapshot S)
      → Replays txs s s'
      → retain_valid kv txs s ≡ (ok txs, s')
  unfolding retain_valid
  retain_valid-Replays [] s s' same = ap (λ (t : LedgerSnapshot S). (ok [], t)) same
  retain_valid-Replays (tx ∷ txs) s s' (s₁, e, rest) =
      rw (e, retain_valid, retain_valid-Replays txs s₁ s' rest)

  module _ {Socket : Type 0} where
    pub record IsPending (service : IroncService S Socket) : Type 0 where
      pub replayed : LedgerSnapshot S
      pub replays : Replays service.pending_transactions (snapshot kv service.blocktree) replayed

    -- Pruning leaves such a list as it is.
    pub prune-IsPending :
        (service : IroncService S Socket)
        → IsPending service
        → prune_invalid_transactions kv service ≡ (ok tt, service)
    unfolding prune_invalid_transactions
    prune-IsPending service i = rw (
        retain_valid-Replays service.pending_transactions (snapshot kv service.blocktree) i.replayed
          i.replays)
