-- ===== src/Main/Texts.antt =====
-- Arguments of the command line that are read back as they are written.
use ironcoin.Base.{
  ℕ, zero, suc, ◌+◌, ◌*◌, ◌-◌, ◌/◌, ◌%◌, ◌<◌, ◌≤◌, ◌≡◌, ◌≢◌, refl, ◌∙◌, ap, some, List, [], ◌∷◌,
  ◌++◌, Bytes, All, length, ltb, Bool-cases, inl, inr, arith, nat_eq, le→leb, lt→ltb,
}
use ironcoin.Main.{parse_digits, parse_number, split}
use ironcoin.Wallet.{decimal}

-- A text with no colon.
abbrev pub NoColon : Bytes → Type 0
NoColon = All (λ c. c ≢ b':')

pub split-one : (text : Bytes) → NoColon text → split text ≡ text ∷ []
unfolding split
split-one [] plain = refl
split-one (c ∷ text) (here, plain) = rw (split-one text plain) (ground arith)

-- A part and the colon after it.
pub split-part :
    (left right : Bytes) → NoColon left → split (left ++ b':' ∷ right) ≡ left ∷ split right
unfolding split
split-part [] right plain = refl
split-part (c ∷ left) right (here, plain) = rw (split-part left right plain) (ground arith)

-- Two parts with a colon between them.
pub split-two :
    (left right : Bytes)
    → NoColon left
    → NoColon right
    → split (left ++ b':' ∷ right) ≡ left ∷ right ∷ []
split-two left right plain plain' =
    split-part left right plain ∙ ap (λ (parts : List Bytes). left ∷ parts) (split-one right plain')

-- One digit more.
parse_digits-digit :
    (limit result d : ℕ) (rest : Bytes)
    → d < 10
    → result * 10 + d < limit
    → parse_digits limit result ((48 + d) ∷ rest) ≡ parse_digits limit (result * 10 + d) rest
unfolding parse_digits
parse_digits-digit limit result d rest small fits =
    let exact : 48 + d - 48 ≡ d = omega arith in
    rw
      (
        exact,
        le→leb 48 (48 + d) (omega arith),
        le→leb (48 + d) 57 (omega arith),
        lt→ltb (result * 10 + d) limit fits,
      )
      refl

parse_digits-decimal :
    (limit fuel n : ℕ) (rest : Bytes)
    → n < fuel
    → n < limit
    → parse_digits limit 0 (decimal fuel n rest) ≡ parse_digits limit n rest
unfolding decimal
parse_digits-decimal limit zero n rest h small = elim h [ ]
parse_digits-decimal limit (suc fuel) n rest h small = elim (Bool-cases (ltb n 10)) [
  | inl one ↦
      rw (one, decimal)
        (parse_digits-digit limit 0 n rest (ground arith) (omega arith)
          ∙ ap (λ (m : ℕ). parse_digits limit m rest) {x = 0 * 10 + n} {y = n} (omega arith))
  | inr more ↦
      rw (more, decimal)
        (parse_digits-decimal limit fuel (n / 10) ((48 + n % 10) ∷ rest) (ground arith)
            (omega arith)
          ∙ parse_digits-digit limit (n / 10) (n % 10) rest (omega arith) (omega arith)
          ∙ ap (λ (m : ℕ). parse_digits limit m rest) {x = n / 10 * 10 + n % 10} {y = n}
              (omega arith))
]

decimal-NoColon : (fuel n : ℕ) (rest : Bytes) → NoColon rest → NoColon (decimal fuel n rest)
unfolding decimal
decimal-NoColon zero n rest plain = plain
decimal-NoColon (suc fuel) n rest plain = elim (Bool-cases (ltb n 10)) [
  | inl one ↦ rw (one, decimal) (ground arith, plain)
  | inr more ↦
      rw (more, decimal) (decimal-NoColon fuel (n / 10) ((48 + n % 10) ∷ rest) (omega arith, plain))
]

decimal-length : (fuel n : ℕ) (rest : Bytes) → length rest ≤ length (decimal fuel n rest)
unfolding decimal
decimal-length zero n rest = omega arith
decimal-length (suc fuel) n rest = elim (Bool-cases (ltb n 10)) [
  | inl one ↦ rw (one, decimal) (omega arith)
  | inr more ↦
      rw (more, decimal) (omega (arith, decimal-length fuel (n / 10) ((48 + n % 10) ∷ rest)))
]

decimal-some : (fuel n : ℕ) (rest : Bytes) → 0 < length (decimal (suc fuel) n rest)
unfolding decimal
decimal-some fuel n rest = elim (Bool-cases (ltb n 10)) [
  | inl one ↦ rw (one, decimal) (omega arith)
  | inr more ↦
      rw (more, decimal) (omega (arith, decimal-length fuel (n / 10) ((48 + n % 10) ∷ rest)))
]

parse_number-some :
    (limit : ℕ) (text : Bytes)
    → 0 < length text
    → parse_number limit text ≡ parse_digits limit 0 text
unfolding parse_number
parse_number-some limit [] h = absurd (omega arith)
parse_number-some limit (c ∷ text) h = refl

-- An amount as it is written.
abbrev pub amount_text : ℕ → Bytes
amount_text n = decimal (suc n) n []

pub amount_text-NoColon : (n : ℕ) → NoColon (amount_text n)
amount_text-NoColon n = decimal-NoColon (suc n) n [] tt

pub parse_number-amount_text :
    (limit n : ℕ) → n < limit → parse_number limit (amount_text n) ≡ some n
unfolding parse_digits
parse_number-amount_text limit n small =
    parse_number-some limit (amount_text n) (decimal-some n n [])
    ∙ parse_digits-decimal limit (suc n) n [] (omega arith) small
