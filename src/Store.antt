-- ===== src/Store.antt =====
-- store.rs: the trait `KeyValueStore`, its implementation for `HashMap`, and the messages that
-- `MessageStore` keeps in a store. `MessageStore` has one field, so it is the store itself.
pub mod Laws
pub mod Rocks
use ironcoin.Base.{Option, none, some, Bytes, list_eq, nat_eq}
use ironcoin.Base.Map.{Map, lookup, insert}
use ironcoin.Base.Run.{Run, ok, ◌>>=◌}
use ironcoin.Base.Action
use ironcoin.Base.Action.{Action}
use ironcoin.External.{Codec}

pub record KeyValueStore (S : Type 0) : Type 0 where
  pub get_bytes : S → Bytes → Run (Option Bytes)
  pub set_bytes : Bytes → Bytes → Action S (Unit {0})

abbrev pub HashMapStore : Type 0
HashMapStore = Map Bytes Bytes

unfoldable pub hash_map_get : HashMapStore → Bytes → Run (Option Bytes)
hash_map_get s key = ok (lookup key s)

unfoldable pub hash_map_set : Bytes → Bytes → Action HashMapStore (Unit {0})
hash_map_set key value = Action.modify (insert key value)

-- `impl KeyValueStore for HashMap<Vec<u8>, Vec<u8>>`
unfoldable pub hash_map_store : KeyValueStore HashMapStore
unfolding hash_map_get hash_map_set
hash_map_store = record { get_bytes = hash_map_get; set_bytes = hash_map_set }

module _ {S M : Type 0} (kv : KeyValueStore S) (codec : Codec M) where
  unfoldable pub get_message : S → Bytes → Run (Option M)
  get_message s key = do
    found ← kv.get_bytes s key
    elim found [
      | some bytes ↦ codec.parse_from_bytes bytes >>= (λ message. ok (some message))
      | none ↦ ok none
    ]

  unfoldable pub set_message : Bytes → M → Action S (Unit {0})
  set_message key message =
      Action.◌>>=◌ (Action.lift (codec.write_to_bytes message)) (kv.set_bytes key)
