-- ===== src/Staking/Target.antt =====
-- The target of a staker in staking.rs as a number: its last byte counts the seconds by threes.
use native.Mathlib.Nat.{mod-eq_of_lt, mul-le-mul_right, pow-suc}
use native.Mathlib.Decide.{dec_le}
use ironcoin.Base.{
  ℕ, zero, suc, ◌+◌, ◌*◌, ◌^◌, ◌≤◌, ◌<◌, min, ◌≡◌, refl, sym, ◌∙◌, ap, false, some, [], ◌∷◌, subst,
  Bytes, length, arith, ltb, lt→ltb, nat_eq,
}
use ironcoin.Base.Run.{ok}
use ironcoin.Crypto.HashDigest.{add_in_place}
use ironcoin.Crypto.Value.{IsBytes, add_in_place-value, value}
use ironcoin.Staking.{Staker, last_byte, raise_target, set_last_byte}

-- The last byte is the highest digit of the number.
last_byte-value :
    (xs : Bytes) (m : ℕ)
    → length xs ≡ suc m
    → IsBytes xs
    → (b : ℕ) × (low : ℕ) × (last_byte xs ≡ some b)
      × (low < 256 ^ m)
      × (value xs ≡ low + b * 256 ^ m)
unfolding last_byte value
last_byte-value [] m e h = absurd (omega arith)
last_byte-value (b ∷ []) zero e h = (b, 0, refl, omega arith, omega arith)
last_byte-value (b ∷ []) (suc m) e h = absurd (omega arith)
last_byte-value (a ∷ b ∷ rest) zero e h = absurd (omega arith)
last_byte-value (a ∷ b ∷ rest) (suc m) e h =
    let (c, low, found, bound, reads) = last_byte-value (b ∷ rest) m (omega arith) h.1 in
    (
      c,
      a + 256 * low,
      found,
      omega (arith, pow-suc 256 m),
      omega (arith, reads, ap (λ (t : ℕ). c * t) (pow-suc 256 m)),
    )

pub set_last_byte-value :
    (v : ℕ) (xs : Bytes) (m : ℕ)
    → length xs ≡ suc m
    → v < 256
    → IsBytes xs
    → value xs ≡ 0
    → (ys : Bytes) × (set_last_byte v xs ≡ ok ys)
      × (length ys ≡ suc m)
      × IsBytes ys
      × (value ys ≡ v * 256 ^ m)
unfolding set_last_byte value
set_last_byte-value v [] m e small h z = absurd (omega arith)
set_last_byte-value v (b ∷ []) zero e small h z = (v ∷ [], refl, refl, (small, tt), omega arith)
set_last_byte-value v (b ∷ []) (suc m) e small h z = absurd (omega arith)
set_last_byte-value v (a ∷ b ∷ rest) zero e small h z = absurd (omega arith)
set_last_byte-value v (a ∷ b ∷ rest) (suc m) e small h z =
    let (ys, done, size, bytes, reads) =
      set_last_byte-value v (b ∷ rest) m (omega arith) small h.1 (omega arith) in
    (
      a ∷ ys,
      rw done,
      omega arith,
      (h.0, bytes),
      omega (arith, reads, ap (λ (t : ℕ). v * t) (pow-suc 256 m)),
    )

suc_below : (a b : ℕ) → a < b → suc a ≤ b
suc_below a b h = omega arith

-- The highest digit of a multiple of the base is its factor.
top_digit : (low b c p : ℕ) → low < p → low + b * p ≡ c * p → b ≡ c
top_digit low b c p h e = elim (dec_le b c) [
  | no above ↦ absurd (omega (arith, e, mul-le-mul_right p (suc_below c b (omega arith))))
  | yes under ↦ elim (dec_le c b) [
    | yes over ↦ omega arith
    | no below ↦ absurd (omega (arith, e, mul-le-mul_right p (suc_below b c (omega arith))))
  ]
]

-- A staker whose target is `k` steps high, of at most 85.
pub record IsStaker (m k : ℕ) (staker : Staker) : Type 0 where
  pub target_size : length staker.target_hash.bytes ≡ suc m
  pub target_bytes : IsBytes staker.target_hash.bytes
  pub target : value staker.target_hash.bytes ≡ 3 * k * 256 ^ m
  pub step_size : length staker.target_step.bytes ≡ suc m
  pub step_bytes : IsBytes staker.target_step.bytes
  pub step : value staker.target_step.bytes ≡ 3 * 256 ^ m
  pub bound : k ≤ 85

-- The step of a target that is `k` steps high succeeds and makes it one step higher, to 85 at most:
-- the sum never overflows the digest. The rest of the staker stays.
pub raise_target-IsStaker :
    (m k : ℕ) (staker : Staker)
    → IsStaker m k staker
    → (raised : Staker) × (raise_target staker ≡ ok raised)
      × IsStaker m (min (suc k) 85) raised
      × (raised.head_block ≡ staker.head_block)
      × (raised.untried_timestamp ≡ staker.untried_timestamp)
      × (raised.staking_keys ≡ staker.staking_keys)
unfolding raise_target
raise_target-IsStaker m k staker i =
    let (b, low, found, small, reads) =
      last_byte-value staker.target_hash.bytes m i.target_size i.target_bytes in
    let top : b ≡ 3 * k = top_digit low b (3 * k) (256 ^ m) small (sym reads ∙ i.target) in
    let (sum, bytes, size) =
      add_in_place-value staker.target_hash staker.target_step (i.target_size ∙ sym i.step_size)
        i.target_bytes i.step_bytes in
    elim (dec_le k 84) [
      | yes room ↦
          let capped : min (suc k) 85 ≡ suc k = omega arith in
          let fits : value staker.target_hash.bytes + value staker.target_step.bytes
              < 256 ^ length staker.target_hash.bytes =
            omega (
              arith,
              i.target,
              i.step,
              i.target_size,
              pow-suc 256 m,
              ap (λ (t : ℕ). 256 ^ t) i.target_size,
              mul-le-mul_right (256 ^ m) room,
            ) in
          (
            record staker { target_hash = add_in_place staker.target_hash staker.target_step },
            rw (found, raise_target, lt→ltb b 255 (omega arith)),
            record {
              target_size = size ∙ i.target_size;
              target_bytes = bytes;
              target = sum ∙ mod-eq_of_lt fits ∙ rw capped (omega (arith, i.target, i.step));
              step_size = i.step_size;
              step_bytes = i.step_bytes;
              step = i.step;
              bound = omega arith;
            },
            refl,
            refl,
            refl,
          )
      | no full ↦
          let top_reached : k ≡ 85 = omega (arith, i.bound) in
          let capped : min (suc k) 85 ≡ 85 = omega arith in
          let top_is_full : ltb b 255 ≡ false = ground arith in
          (
            staker,
            rw (found, raise_target, top_is_full) refl,
            rw capped (subst (λ (j : ℕ). IsStaker m j staker) top_reached i),
            refl,
            refl,
            refl,
          )
    ]
