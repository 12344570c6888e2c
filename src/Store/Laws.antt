-- ===== src/Store/Laws.antt =====
-- What store.rs promises of a store that does not fail, which the `HashMap` keeps, and the
-- messages in such a store.
use ironcoin.Base.{
  ◌≡◌, refl, Option, none, some, Bytes, ◌==◌, list_eq, nat_eq, ==_refl, if◌then◌else◌,
}
use ironcoin.Base.Map.{lookup, lookup-insert, insert}
use ironcoin.Base.Run.{ok}
use ironcoin.External.{Codec, IsFaithful}
use ironcoin.Store.{
  KeyValueStore, get_message, hash_map_get, hash_map_set, hash_map_store, set_message,
}

-- A store holds a value or none at each key: a read gives it, and a write changes it at one key.
pub record IsStore {S : Type 0} (kv : KeyValueStore S) : Type 0 where
  pub at_key : S → Bytes → Option Bytes
  pub get-eq : (s : S) (key : Bytes) → kv.get_bytes s key ≡ ok (at_key s key)
  pub set-eq :
      (key value : Bytes) (s : S)
      → (s' : S) × (kv.set_bytes key value s ≡ (ok tt, s'))
        × ((other : Bytes)
            → at_key s' other ≡ (if key == other then some value else at_key s other))

-- The `HashMap` is such a store.
unfoldable pub hash_map-IsStore : IsStore hash_map_store
unfolding hash_map_store hash_map_get hash_map_set
hash_map-IsStore = record {
  at_key = λ s key. lookup key s;
  get-eq = λ s key. refl;
  set-eq = λ key value s. (insert key value s, refl, λ other. lookup-insert key other value s);
}

module _ {S M : Type 0} {kv : KeyValueStore S} (laws : IsStore kv) {codec : Codec M}
    (faithful : IsFaithful codec) where
  -- A key that was never written holds no message.
  pub get_message-none :
      (s : S) (key : Bytes) → laws.at_key s key ≡ none → get_message kv codec s key ≡ ok none
  unfolding get_message
  get_message-none s key e = rw (laws.get-eq s key, e)

  pub get_message-some :
      (s : S) (key : Bytes) (m : M)
      → laws.at_key s key ≡ some (faithful.encode m)
      → get_message kv codec s key ≡ ok (some m)
  unfolding get_message
  get_message-some s key m e = rw (laws.get-eq s key, e, faithful.parse-encode m)

  -- A message that is stored is read back at its key, and what stands at another key stays.
  pub get_message-set_message :
      (key : Bytes) (m : M) (s : S)
      → (s' : S) × (set_message kv codec key m s ≡ (ok tt, s'))
        × (get_message kv codec s' key ≡ ok (some m))
        × ((other : Bytes)
            → laws.at_key s' other
              ≡ (if key == other then some (faithful.encode m) else laws.at_key s other))
  unfolding set_message
  get_message-set_message key m s =
      let (s', e, at) = laws.set-eq key (faithful.encode m) s in
      (s', rw (faithful.write-eq m) e, get_message-some s' key m (rw (at key, ==_refl key)), at)
