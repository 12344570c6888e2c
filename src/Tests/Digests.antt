-- ===== src/Tests/Digests.antt =====
-- The theorems on digests and on the store, at small inputs.
use Prim.Native.Nat.{compare}
use ironcoin.Base.{
  ◌+◌, ◌*◌, ◌%◌, ◌^◌, ◌<◌, ◌≤◌, ◌≡◌, ◌↔◌, refl, true, some, [], ◌∷◌, Bytes, length, ◌==◌, list_eq,
  nat_eq, if◌then◌else◌, arith,
}
use ironcoin.Base.Run.{ok}
use ironcoin.Crypto.HashDigest
use ironcoin.Crypto.HashDigest.{HashDigest, add_in_place, less, multiply_u8_in_place, partial_cmp}
use ironcoin.Crypto.Order.{less_iff, partial_cmp-value}
use ironcoin.Crypto.Value.{
  IsBytes, add_in_place-value, from_u64-value, multiply_u8_in_place-value, value,
}
use ironcoin.Message.Ledger.{new_balance}
use ironcoin.Store.{HashMapStore, get_message, hash_map_store, set_message}
use ironcoin.Store.Laws.{get_message-set_message}
use ironcoin.Tests.World.{codecs, hash_map-HasLaws, sodium}

abbrev small : HashDigest
small = record { bytes = 200 ∷ 1 ∷ [] }

abbrev large : HashDigest
large = record { bytes = 100 ∷ 255 ∷ [] }

small-IsBytes : IsBytes small.bytes
small-IsBytes = (omega arith, (omega arith, tt))

large-IsBytes : IsBytes large.bytes
large-IsBytes = (omega arith, (omega arith, tt))

-- The sum wraps around.
add_in_place_run : (add_in_place small large).bytes ≡ 44 ∷ 1 ∷ []
unfolding add_in_place
add_in_place_run = refl

add_in_place-value_example :
    (value (add_in_place small large).bytes ≡ (value small.bytes + value large.bytes) % 256 ^ 2)
    × IsBytes (add_in_place small large).bytes
    × (length (add_in_place small large).bytes ≡ 2)
add_in_place-value_example = add_in_place-value small large refl small-IsBytes large-IsBytes

byte : 3 < 256
byte = omega arith

multiply_u8_in_place-value_example :
    (value (multiply_u8_in_place large 3).bytes ≡ value large.bytes * 3 % 256 ^ 2)
    × IsBytes (multiply_u8_in_place large 3).bytes
    × (length (multiply_u8_in_place large 3).bytes ≡ 2)
multiply_u8_in_place-value_example = multiply_u8_in_place-value large 3 byte large-IsBytes

fits : 1000 < 2 ^ 64
fits = omega arith

room : 8 ≤ 8
room = omega arith

from_u64-value_example :
    (digest : HashDigest) × (HashDigest.from_u64 1000 ≡ ok digest)
    × (value digest.bytes ≡ 1000)
    × IsBytes digest.bytes
    × (length digest.bytes ≡ 8)
from_u64-value_example = from_u64-value 1000 fits room

partial_cmp-value_example :
    partial_cmp small large ≡ compare (value small.bytes) (value large.bytes)
partial_cmp-value_example = partial_cmp-value small large refl small-IsBytes large-IsBytes

less_iff_example : (less small large ≡ true) ↔ (value small.bytes < value large.bytes)
less_iff_example = less_iff small large refl small-IsBytes large-IsBytes

get_message-set_message_example :
    (s' : HashMapStore) × (set_message hash_map_store codecs.balance (97 ∷ []) (new_balance 5 0) []
      ≡ (ok tt, s'))
    × (get_message hash_map_store codecs.balance s' (97 ∷ []) ≡ ok (some (new_balance 5 0)))
    × ((other : Bytes)
        → hash_map-HasLaws.store.at_key s' other ≡ (
            if (97 ∷ []) == other
            then some (hash_map-HasLaws.balance.encode (new_balance 5 0))
            else hash_map-HasLaws.store.at_key [] other))
get_message-set_message_example =
    get_message-set_message hash_map-HasLaws.store hash_map-HasLaws.balance (97 ∷ [])
      (new_balance 5 0) []
