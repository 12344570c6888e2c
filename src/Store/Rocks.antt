-- ===== src/Store/Rocks.antt =====
-- `RocksStore` of store.rs, over the database that the rocksdb library opens.
use ironcoin.Base.{◌≡◌, refl, Option, some, none, Bytes, list_eq, ◌==◌, if◌then◌else◌, nat_eq}
use ironcoin.Base.Action.{Action}
use ironcoin.Base.Run.{Run, ok, err, IroncError}
use ironcoin.Store.{KeyValueStore}
use ironcoin.Store.Laws.{IsStore}

-- `RocksDBResult`
pub data RocksResult : Type 0 where
  found : Bytes → RocksResult
  missing : RocksResult
  failed : IroncError → RocksResult

-- `get` and `put` of the library.
pub record RocksDb (Db : Type 0) : Type 0 where
  pub get : Db → Bytes → RocksResult
  pub put : Bytes → Bytes → Action Db (Unit {0})

abbrev pub result_of : RocksResult → Run (Option Bytes)
result_of (RocksResult.found bytes) = ok (some bytes)
result_of RocksResult.missing = ok none
result_of (RocksResult.failed e) = err e

unfoldable pub rocks_store : {Db : Type 0} → RocksDb Db → KeyValueStore Db
rocks_store rocks = record {
  get_bytes = λ db key. result_of (rocks.get db key);
  set_bytes = λ key value. rocks.put key value;
}

abbrev found_or : Option Bytes → RocksResult
found_or (some bytes) = RocksResult.found bytes
found_or none = RocksResult.missing

-- The contract of a database that does not fail: what is put under a key is got there, and the other
-- keys stay.
pub record IsDatabase {Db : Type 0} (rocks : RocksDb Db) : Type 0 where
  pub at_key : Db → Bytes → Option Bytes
  pub get-eq : (db : Db) (key : Bytes) → rocks.get db key ≡ found_or (at_key db key)
  pub put-eq :
      (key value : Bytes) (db : Db)
      → (db' : Db) × (rocks.put key value db ≡ (ok tt, db'))
        × ((other : Bytes)
            → at_key db' other ≡ (if key == other then some value else at_key db other))

-- A found or missing value is the answer of the store.
result-found_or : (value : Option Bytes) → result_of (found_or value) ≡ ok value
result-found_or (some bytes) = refl
result-found_or none = refl

-- Over such a database, `RocksStore` is a store that the block tree can rely on.
pub rocks_store-IsStore :
    {Db : Type 0} (rocks : RocksDb Db) → IsDatabase rocks → IsStore (rocks_store rocks)
unfolding rocks_store
rocks_store-IsStore rocks database = record {
  at_key = database.at_key;
  get-eq = λ db key. rw (database.get-eq db key) (result-found_or (database.at_key db key));
  set-eq = database.put-eq;
}
