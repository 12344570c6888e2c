-- ===== src/Crypto/HashDigest.antt =====
-- `HashDigest` of crypto.rs: an array of bytes, the least significant one first.
use mathlib.Core.List.{reverse}
use Prim.Native.Nat.{Ordering}
use ironcoin.Base.{
  ℕ, ◌+◌, ◌*◌, ◌/◌, ◌%◌, ◌^◌, Bool, true, false, not, [], ◌∷◌, Bytes, ◌==◌, list_eq, nat_eq,
  list_beq, list_beq_iff, ◌≡◌, ◌↔◌, arith, length, replicate, ltb, if◌then◌else◌,
}
use ironcoin.Base.Run.{Run, ok, err, panic, ◌>>=◌, IroncError, Panic}
use ironcoin.External.{Sodium}

pub record HashDigest : Type 0 where
  pub bytes : Bytes

-- The loop of `from_u64` over the places that are left, from the current index on.
unfoldable pub fill_from_u64 : ℕ → Bytes → Run Bytes
fill_from_u64 value [] = if ltb 0 value then panic Panic.index_out_of_bounds else ok []
fill_from_u64 value (b ∷ rest) =
    let filled = fill_from_u64 (value / 2 ^ 8) rest >>= (λ tail. ok (value % 2 ^ 8 ∷ tail)) in
    if ltb 0 value then filled else ok (b ∷ rest)

-- The loop of `multiply_u8_in_place`; `quot` is a `u16`.
unfoldable pub multiply_from : ℕ → ℕ → Bytes → Bytes
multiply_from other quot [] = []
multiply_from other quot (b ∷ rest) =
    let quot' = (b * other + quot) % 2 ^ 16 in
    quot' % 2 ^ 8 ∷ multiply_from other (quot' / 2 ^ 8) rest

-- The loop of `add_in_place`; `rem` is a `u16`, and both arrays have one length.
unfoldable pub add_from : ℕ → Bytes → Bytes → Bytes
add_from rem (a ∷ rest) (b ∷ other) =
    let rem' = (a + b + rem) % 2 ^ 16 in rem' % 2 ^ 8 ∷ add_from (rem' / 2 ^ 8) rest other
add_from rem rest _ = rest

-- The loop of `partial_cmp`, over the bytes from the most significant one on.
unfoldable pub compare_from : Bytes → Bytes → Ordering
compare_from (a ∷ rest) (b ∷ other) =
    let next = compare_from rest other in
    if ltb b a then Ordering.gt else if ltb a b then Ordering.lt else next
compare_from _ _ = Ordering.eq

unfoldable pub multiply_u8_in_place : HashDigest → ℕ → HashDigest
unfolding multiply_from
multiply_u8_in_place digest other = record { bytes = multiply_from other 0 digest.bytes }

unfoldable pub add_in_place : HashDigest → HashDigest → HashDigest
unfolding add_from
add_in_place digest other = record { bytes = add_from 0 digest.bytes other.bytes }

-- `eq`
unfoldable pub digest_beq : HashDigest → HashDigest → Bool
unfolding list_beq
digest_beq a b = a.bytes == b.bytes

pub digest_beq_iff : (a b : HashDigest) → (digest_beq a b ≡ true) ↔ (a ≡ b)
unfolding digest_beq
digest_beq_iff a b = ground (arith, list_beq_iff a.bytes b.bytes)

unfoldable pub partial_cmp : HashDigest → HashDigest → Ordering
unfolding compare_from
partial_cmp a b = compare_from (reverse a.bytes) (reverse b.bytes)

-- `<`, which Rust derives from `partial_cmp`.
unfoldable pub less : HashDigest → HashDigest → Bool
unfolding partial_cmp
less a b = elim (partial_cmp a b) [ Ordering.lt ↦ true | _ ↦ false ]

module _ ⦃sodium : Sodium⦄ where
  unfoldable pub from_slice : Bytes → Run HashDigest
  from_slice bytes =
      if not (length bytes == sodium.hash_bytes)
      then err (IroncError.invalid_length (length bytes) sodium.hash_bytes)
      else ok (record { bytes = bytes })

  unfoldable pub from_u64 : ℕ → Run HashDigest
  unfolding fill_from_u64
  from_u64 value = do
    bytes ← fill_from_u64 value (replicate sodium.hash_bytes 0)
    ok (record { bytes = bytes })

  -- `hash`
  unfoldable pub hash : Bytes → HashDigest
  hash bytes = record { bytes = sodium.sha512 bytes }
