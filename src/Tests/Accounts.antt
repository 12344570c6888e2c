-- ===== src/Tests/Accounts.antt =====
-- The theorems on balances, on the accounts of Alice and Bob.
use ironcoin.Base.{
  ℕ, ◌≤◌, ◌<◌, ◌^◌, ◌≡◌, ◌≢◌, refl, some, List, [], ◌∷◌, ◌==◌, if◌then◌else◌, arith,
}
use ironcoin.Base.Map.{Map}
use ironcoin.Base.Run.{ok}
use ironcoin.Base.Action.{for_each}
use ironcoin.Balance.{LedgerReader, apply_patch, reverse}
use ironcoin.Balance.Ledger.{IsLedger, IsOver, snapshot-IsLedger}
use ironcoin.Balance.Patches.{StartsAt, apply-changed_patches}
use ironcoin.Balance.Revert.{apply-reversed_patches, commit_lem}
use ironcoin.Balance.Snapshot.{
  LedgerSnapshot, add_transfer, apply_block, changed_patches, commit, make_patches, snapshot_ledger,
}
use ironcoin.Balance.Spend.{add_transfer_moves, add_transfer_self_mints}
use ironcoin.Balance.Supply.{Conserves, IsDistinct, IsSpend, apply_block-Conserves, supply}
use ironcoin.Balance.Transfer.{IsTransfer, add_transfer-expected, credit, debit, expected}
use ironcoin.Balance.View.{Accounts, Becomes, IsCache, Reads, after_cache, before_cache}
use ironcoin.Crypto.PublicKey.{PublicKey, public_key_eq, public_key_beq_iff}
use ironcoin.Message.Ledger.{BalancePatch, Transfer, new_balance, new_patch}
use ironcoin.Tests.Chain.{alice, bob, block}
use ironcoin.Tests.World.{sodium}

abbrev vault : Accounts
vault q = if q == alice then new_balance 50 0 else new_balance 0 0

abbrev reader : LedgerReader (Unit {0})
reader = record { get_balance = λ store q. ok (vault q) }

abbrev blank : LedgerSnapshot (Unit {0})
blank = record { cache = []; store = tt }

vault-Reads : Reads reader tt vault
vault-Reads q = refl

abbrev pay : ℕ → PublicKey → Transfer
pay tokens destination = record {
  op_index = some 0;
  tokens = some tokens;
  source_pk = some alice.bytes;
  destination_pk = some destination.bytes;
}

pay-IsTransfer : IsTransfer (pay 20 bob) alice bob
pay-IsTransfer = record {
  source_pk = refl;
  destination_pk = refl;
  source_size = refl;
  destination_size = refl;
}

-- More than Alice has.
short-IsTransfer : IsTransfer (pay 60 bob) alice bob
short-IsTransfer = record {
  source_pk = refl;
  destination_pk = refl;
  source_size = refl;
  destination_size = refl;
}

self-IsTransfer : IsTransfer (pay 20 alice) alice alice
self-IsTransfer = record {
  source_pk = refl;
  destination_pk = refl;
  source_size = refl;
  destination_size = refl;
}

add_transfer-expected_example :
    (s' : LedgerSnapshot (Unit {0})) × (add_transfer reader (pay 60 bob) blank
      ≡ ((expected (pay 60 bob) alice bob (after_cache vault [])).0, s'))
    × Becomes reader vault blank s' (expected (pay 60 bob) alice bob (after_cache vault [])).1
add_transfer-expected_example =
    add_transfer-expected reader vault (pay 60 bob) alice bob short-IsTransfer blank vault-Reads

funded : 20 ≤ 50
funded = omega arith

alice-bob_apart : alice ≢ bob
alice-bob_apart e = ground arith

add_transfer_moves_example :
    (s' : LedgerSnapshot (Unit {0})) × (add_transfer reader (pay 20 bob) blank ≡ (ok tt, s'))
    × (after_cache vault s'.cache alice ≡ debit 20 (new_balance 50 0))
    × (after_cache vault s'.cache bob ≡ credit 20 (new_balance 0 0))
    × ((q : PublicKey)
        → alice ≢ q
        → bob ≢ q
        → after_cache vault s'.cache q ≡ after_cache vault [] q)
unfolding ironcoin.Crypto.PublicKey.public_key_beq
add_transfer_moves_example =
    add_transfer_moves reader vault (pay 20 bob) alice bob pay-IsTransfer blank vault-Reads funded
      refl alice-bob_apart

add_transfer_self_mints_example :
    (s' : LedgerSnapshot (Unit {0})) × (add_transfer reader (pay 20 alice) blank ≡ (ok tt, s'))
    × (after_cache vault s'.cache alice ≡ credit 20 (new_balance 50 0))
    × ((after_cache vault s'.cache alice).op_index ≡ some 0)
unfolding ironcoin.Crypto.PublicKey.public_key_beq
add_transfer_self_mints_example =
    add_transfer_self_mints reader vault (pay 20 alice) alice alice self-IsTransfer blank
      vault-Reads funded refl refl

blank-IsOver : IsOver reader vault tt vault blank
blank-IsOver = record { store = refl; cache = tt; before = λ q. refl }

abbrev holders : List PublicKey
holders = alice ∷ bob ∷ []

holders-IsDistinct : IsDistinct holders
unfolding ironcoin.Crypto.PublicKey.public_key_beq
holders-IsDistinct = (refl, (refl, tt))

pay-IsSpend : IsSpend holders (pay 20 bob)
unfolding ironcoin.Crypto.PublicKey.public_key_beq
pay-IsSpend = record {
  source = alice;
  destination = bob;
  named = pay-IsTransfer;
  apart = alice-bob_apart;
  source_known = refl;
  destination_known = refl;
}

small_supply : supply reader vault tt vault vault-Reads holders holders-IsDistinct blank < 2 ^ 64
unfolding ironcoin.Crypto.PublicKey.public_key_beq
small_supply = omega arith

apply_block-Conserves_example :
    Conserves reader vault tt vault vault-Reads holders holders-IsDistinct
      (apply_block reader block)
      blank
apply_block-Conserves_example =
    apply_block-Conserves reader vault tt vault vault-Reads holders holders-IsDistinct block blank
      ((pay-IsSpend, tt), tt) blank-IsOver small_supply

snapshot-IsLedger_example :
    IsLedger
      (snapshot_ledger reader)
      (IsOver reader vault tt vault)
      (λ s. after_cache vault s.cache)
snapshot-IsLedger_example = snapshot-IsLedger reader vault tt vault vault-Reads

abbrev paid : Map PublicKey BalancePatch
paid =
    (bob, new_patch bob.bytes (new_balance 0 0) (new_balance 20 0))
    ∷ (alice, new_patch alice.bytes (new_balance 50 0) (new_balance 30 1))
    ∷ []

paid-IsCache : IsCache paid
unfolding ironcoin.Crypto.PublicKey.public_key_beq
paid-IsCache = (refl, refl, refl, (refl, refl, refl, tt))

paid-StartsAt : StartsAt vault paid
paid-StartsAt q patch found =
    ground (arith, public_key_beq_iff q alice, public_key_beq_iff alice q, public_key_beq_iff bob q)

abbrev over :
    IsLedger
      (snapshot_ledger reader)
      (IsOver reader vault tt vault)
      (λ s. after_cache vault s.cache)
over = snapshot-IsLedger reader vault tt vault vault-Reads

apply-changed_patches_example :
    (s' : LedgerSnapshot (Unit {0})) × (for_each
        (apply_patch (snapshot_ledger reader))
        (changed_patches paid)
        blank
      ≡ (ok tt, s'))
    × IsOver reader vault tt vault s'
    × ((q : PublicKey) → after_cache vault s'.cache q ≡ after_cache (after_cache vault []) paid q)
apply-changed_patches_example =
    apply-changed_patches over paid blank paid-IsCache blank-IsOver paid-StartsAt

-- A snapshot that shows the accounts after the patches.
abbrev after_paid : LedgerSnapshot (Unit {0})
after_paid = record { cache = paid; store = tt }

after_paid-IsOver : IsOver reader vault tt vault after_paid
after_paid-IsOver = record {
  store = refl;
  cache = paid-IsCache;
  before = λ q.
      ground
        (arith, public_key_beq_iff q alice, public_key_beq_iff alice q, public_key_beq_iff bob q);
}

apply-reversed_patches_example :
    (s' : LedgerSnapshot (Unit {0})) × (for_each
        (λ patch. apply_patch (snapshot_ledger reader) (reverse patch))
        (changed_patches paid)
        after_paid
      ≡ (ok tt, s'))
    × IsOver reader vault tt vault s'
    × ((q : PublicKey) → after_cache vault s'.cache q ≡ vault q)
apply-reversed_patches_example =
    apply-reversed_patches over paid vault after_paid paid-IsCache after_paid-IsOver paid-StartsAt
      (λ q. refl)

commit_lem_example :
    ((q : PublicKey)
      → after_cache vault (commit after_paid).cache q ≡ after_cache vault after_paid.cache q)
    × ((q : PublicKey)
        → before_cache vault (commit after_paid).cache q ≡ after_cache vault after_paid.cache q)
    × (make_patches (commit after_paid) ≡ [])
commit_lem_example = commit_lem vault after_paid
