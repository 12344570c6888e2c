-- ===== src/Balance/Snapshot.antt =====
-- `LedgerSnapshot` of balance.rs: a cache of patches over a ledger that is only read.
use ironcoin.Base.{
  ◌+◌, ◌-◌, ◌%◌, ◌^◌, none, some, List, [], ◌∷◌, not, nat_eq, ◌==◌, leb, if◌then◌else◌,
}
use ironcoin.Base.Map.{Map, lookup, insert}
use ironcoin.Base.Run.{IroncError}
use ironcoin.Base.Action.{Action, raise, lift, pure, gets, reads, modify, for_each, ◌>>=◌, ◌>>◌}
use ironcoin.Balance.{LedgerReader, LedgerMutator}
use ironcoin.Crypto.PublicKey
use ironcoin.Crypto.PublicKey.{PublicKey, public_key_eq}
use ironcoin.External.{Sodium}
use ironcoin.Message.Ledger.{
  Balance, BalancePatch, HashedBlock, Transaction, Transfer, get_after, get_before, get_bytes,
  get_num, get_signed_block, get_inner_block, get_transfers, new_patch, balance_eq,
}

pub record LedgerSnapshot (L : Type 0) : Type 0 where
  pub cache : Map PublicKey BalancePatch
  pub store : L

-- The patch that the cache has after the first read of an address, or after a write to one.
unfoldable pub cache_patch :
    {L : Type 0} → PublicKey → BalancePatch → Action (LedgerSnapshot L) (Unit {0})
cache_patch address patch = modify (λ s. record s { cache = insert address patch s.cache })

-- `make_patches`, over the entries of the cache.
unfoldable pub changed_patches : Map PublicKey BalancePatch → List BalancePatch
changed_patches [] = []
changed_patches ((_, patch) ∷ cache) =
    let rest = changed_patches cache in
    if not (get_before patch == get_after patch) then patch ∷ rest else rest

-- The loop of `commit`.
unfoldable pub commit_patches : Map PublicKey BalancePatch → Map PublicKey BalancePatch
commit_patches [] = []
commit_patches ((address, patch) ∷ cache) =
    (address, record patch { before = some (get_after patch) }) ∷ commit_patches cache

module _ {L : Type 0} where
  -- `LedgerSnapshot::new`
  unfoldable pub new : L → LedgerSnapshot L
  new store = record { cache = []; store = store }

  unfoldable pub commit : LedgerSnapshot L → LedgerSnapshot L
  unfolding commit_patches
  commit s = record s { cache = commit_patches s.cache }

  unfoldable pub make_patches : LedgerSnapshot L → List BalancePatch
  unfolding changed_patches
  make_patches s = changed_patches s.cache

module _ {L : Type 0} (reader : LedgerReader L) where
  unfoldable pub get_balance : PublicKey → Action (LedgerSnapshot L) Balance
  unfolding cache_patch
  get_balance address = do
    cached ← gets (λ s. lookup address s.cache)
    elim cached [
      | some patch ↦ pure (get_after patch)
      | none ↦ do
        db_balance ← reads (λ s. reader.get_balance s.store address)
        cache_patch address (new_patch address.bytes db_balance db_balance)
        pure db_balance
    ]

  unfoldable pub set_balance : PublicKey → Balance → Action (LedgerSnapshot L) (Unit {0})
  unfolding cache_patch
  set_balance address balance = do
    cached ← gets (λ s. lookup address s.cache)
    elim cached [
      | some patch ↦ cache_patch address (record patch { after = some balance })
      | none ↦ do
        db_balance ← reads (λ s. reader.get_balance s.store address)
        cache_patch address (new_patch address.bytes db_balance balance)
    ]

  -- `LedgerReader` and `LedgerWriter` of a snapshot.
  abbrev pub snapshot_ledger : LedgerMutator (LedgerSnapshot L)
  snapshot_ledger = record { get_balance = get_balance; set_balance = set_balance }

  module _ ⦃sodium : Sodium⦄ where
    -- The body of `add_transfer` once both addresses are read; sums wrap around.
    unfoldable pub move_tokens :
        Transfer → PublicKey → PublicKey → Balance → Balance → Action (LedgerSnapshot L) (Unit {0})
    unfolding get_balance set_balance
    move_tokens transfer source_pk destination_pk source destination =
        let tokens = get_num transfer.tokens in
        if leb tokens (get_num source.tokens)
        then if get_num transfer.op_index == get_num source.op_index
          then (set_balance source_pk (record {
            tokens = some (get_num source.tokens - tokens);
            op_index = some ((get_num source.op_index + 1) % 2 ^ 32);
          })
              >> set_balance destination_pk (record destination {
                tokens = some ((get_num destination.tokens + tokens) % 2 ^ 64);
              }))
          else raise (
              IroncError.wrong_op_number source_pk.bytes (get_num transfer.op_index)
                (get_num source.op_index))
        else raise (
            IroncError.not_enough_funds (get_num source.tokens) tokens source_pk.bytes
              destination_pk.bytes)

    unfoldable pub add_transfer : Transfer → Action (LedgerSnapshot L) (Unit {0})
    unfolding move_tokens PublicKey.from_slice
    add_transfer transfer = do
      source_pk ← lift (PublicKey.from_slice (get_bytes transfer.source_pk))
      destination_pk ← lift (PublicKey.from_slice (get_bytes transfer.destination_pk))
      source ← get_balance source_pk
      destination ← get_balance destination_pk
      move_tokens transfer source_pk destination_pk source destination

    unfoldable pub apply_transaction : Transaction → Action (LedgerSnapshot L) (Unit {0})
    unfolding for_each add_transfer
    apply_transaction transaction = for_each add_transfer (get_transfers transaction)

    unfoldable pub apply_block : HashedBlock → Action (LedgerSnapshot L) (Unit {0})
    unfolding for_each apply_transaction
    apply_block block =
        for_each apply_transaction (get_inner_block (get_signed_block block)).transactions
