-- ===== src/Crypto/Value.antt =====
-- A digest of crypto.rs xs a number, and its arithmetic xs arithmetic on numbers.
use native.Mathlib.Nat.{add-mul-mod_self_right, mod-eq_of_lt, pow-le-pow_right, pow-suc}
use ironcoin.Base.{
  ℕ, zero, suc, ◌+◌, ◌*◌, ◌/◌, ◌%◌, ◌^◌, ◌≤◌, ◌<◌, ◌≡◌, refl, [], ◌∷◌, Bytes, All, length,
  replicate, length-replicate, arith, ltb, inl, inr, Bool-cases, ap, sym, ◌∙◌,
}
use ironcoin.Base.Run.{ok}
use ironcoin.Crypto.HashDigest.{
  HashDigest, add_from, add_in_place, fill_from_u64, from_u64, multiply_from, multiply_u8_in_place,
}
use ironcoin.External.{Sodium}

-- The number that an array stands for, its least significant byte first.
unfoldable pub value : Bytes → ℕ
value [] = 0
value (b ∷ ys) = b + 256 * value ys

abbrev pub IsBytes : Bytes → Type 0
IsBytes = All (λ b. b < 256)

pub value-lt : (ys : Bytes) → IsBytes ys → value ys < 256 ^ length ys
unfolding value
value-lt [] h = omega arith
value-lt (b ∷ ys) h = omega (arith, pow-suc 256 (length ys), value-lt ys h.1)

-- One pass of the adder: the bytes of the sum, and the carry that falls off the end.
pub add_from-value :
    (rem : ℕ) (xs ys : Bytes)
    → rem ≤ 1
    → length xs ≡ length ys
    → IsBytes xs
    → IsBytes ys
    → (carry : ℕ) × (value (add_from rem xs ys) + carry * 256 ^ length xs
        ≡ rem + value xs + value ys)
      × IsBytes (add_from rem xs ys)
      × (length (add_from rem xs ys) ≡ length xs)
unfolding value add_from
add_from-value rem [] [] h e ha hb = (rem, omega arith, tt, refl)
add_from-value rem [] (b ∷ ys) h e ha hb = absurd (omega arith)
add_from-value rem (a ∷ xs) [] h e ha hb = absurd (omega arith)
add_from-value rem (a ∷ xs) (b ∷ ys) h e ha hb =
    let next = (a + b + rem) % 2 ^ 16 / 2 ^ 8 in
    let (carry, sum, small, size) =
      add_from-value next xs ys (omega arith) (omega arith) ha.1 hb.1 in
    (
      carry,
      omega (arith, ap (λ (t : ℕ). carry * t) (pow-suc 256 (length xs))),
      (omega arith, small),
      omega arith,
    )

-- One pass of the multiplier: the bytes of the product, and the byte that falls off the end.
pub multiply_from-value :
    (other quot : ℕ) (xs : Bytes)
    → other < 256
    → quot < 256
    → IsBytes xs
    → (carry : ℕ) × (value (multiply_from other quot xs) + carry * 256 ^ length xs
        ≡ value xs * other + quot)
      × IsBytes (multiply_from other quot xs)
      × (length (multiply_from other quot xs) ≡ length xs)
unfolding value multiply_from
multiply_from-value other quot [] ho hq h = (quot, omega arith, tt, refl)
multiply_from-value other quot (x ∷ xs) ho hq h =
    let bound : x * other ≤ 255 * 255 = grind arith in
    let next = (x * other + quot) % 2 ^ 16 / 2 ^ 8 in
    let (carry, product, small, size) = multiply_from-value other next xs ho (omega arith) h.1 in
    (
      carry,
      omega (arith, ap (λ (t : ℕ). carry * t) (pow-suc 256 (length xs))),
      (omega arith, small),
      omega arith,
    )

-- A sum whose carry is a multiple of the modulus.
mod_of_carry : (v carry m s : ℕ) → v + carry * m ≡ s → v < m → v ≡ s % m
mod_of_carry v carry m s e h = sym (rw (← e) (add-mul-mod_self_right v carry m ∙ mod-eq_of_lt h))

-- `add_in_place` adds the numbers of two digests of one length, and what overflows is lost: the
-- result is the sum modulo 256 to the length, is made of bytes, and has the same length.
pub add_in_place-value :
    (a b : HashDigest)
    → length a.bytes ≡ length b.bytes
    → IsBytes a.bytes
    → IsBytes b.bytes
    → (value (add_in_place a b).bytes ≡ (value a.bytes + value b.bytes) % 256 ^ length a.bytes)
      × IsBytes (add_in_place a b).bytes
      × (length (add_in_place a b).bytes ≡ length a.bytes)
unfolding add_in_place
add_in_place-value a b e ha hb =
    let (carry, sum, small, size) = add_from-value 0 a.bytes b.bytes (omega arith) e ha hb in
    let bound = value-lt (add_from 0 a.bytes b.bytes) small in
    (mod_of_carry _ carry _ _ (omega arith) (rw size at bound), small, size)

-- `multiply_u8_in_place` multiplies the number of a digest by a byte modulo 256 to the length, and
-- keeps bytes and length; the `u16` in which it works never overflows.
pub multiply_u8_in_place-value :
    (a : HashDigest) (other : ℕ)
    → other < 256
    → IsBytes a.bytes
    → (value (multiply_u8_in_place a other).bytes ≡ value a.bytes * other % 256 ^ length a.bytes)
      × IsBytes (multiply_u8_in_place a other).bytes
      × (length (multiply_u8_in_place a other).bytes ≡ length a.bytes)
unfolding multiply_u8_in_place
multiply_u8_in_place-value a other ho ha =
    let (carry, product, small, size) = multiply_from-value other 0 a.bytes ho (omega arith) ha in
    let bound = value-lt (multiply_from other 0 a.bytes) small in
    (mod_of_carry _ carry _ _ (omega arith) (rw size at bound), small, size)

zeros : (n : ℕ) → (value (replicate n 0) ≡ 0) × IsBytes (replicate n 0)
unfolding value
zeros zero = (refl, tt)
zeros (suc n) = let (none_yet, small) = zeros n in (omega arith, (omega arith, small))

-- The array that is filled in a loop over zeros stands for the number.
fill_from_u64-value :
    (v n : ℕ)
    → v < 256 ^ n
    → (filled : Bytes) × (fill_from_u64 v (replicate n 0) ≡ ok filled)
      × (value filled ≡ v)
      × IsBytes filled
      × (length filled ≡ n)
unfolding fill_from_u64 value
fill_from_u64-value v zero h = ([], ground arith, omega arith, tt, refl)
fill_from_u64-value v (suc n) h =
    let (filled, done, reads, small, size) =
      fill_from_u64-value (v / 2 ^ 8) n (omega (arith, pow-suc 256 n)) in
    elim (Bool-cases (ltb 0 v)) [
      | inl more ↦
          (v % 2 ^ 8 ∷ filled, rw (more, done), omega arith, (omega arith, small), omega arith)
      | inr stop ↦ (
        0 ∷ replicate n 0,
        rw stop,
        ground (arith, zeros n),
        (omega arith, (zeros n).1),
        omega (arith, length-replicate {A = ℕ} n 0),
      )
    ]

module _ ⦃sodium : Sodium⦄ where
  -- `from_u64` returns a digest of the right length whose number is the one given, where a digest
  -- has room for 64 bits: the index never runs out of bounds.
  pub from_u64-value :
      (v : ℕ)
      → v < 2 ^ 64
      → 8 ≤ sodium.hash_bytes
      → (digest : HashDigest) × (from_u64 v ≡ ok digest)
        × (value digest.bytes ≡ v)
        × IsBytes digest.bytes
        × (length digest.bytes ≡ sodium.hash_bytes)
  unfolding from_u64
  from_u64-value v small room =
      let fits : v < 256 ^ sodium.hash_bytes =
        omega (arith, pow-le-pow_right {n = 256} (omega arith) room) in
      let (filled, done, reads, bytes, size) = fill_from_u64-value v sodium.hash_bytes fits in
      (record { bytes = filled }, rw done, reads, bytes, size)
