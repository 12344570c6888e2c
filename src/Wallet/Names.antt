-- ===== src/Wallet/Names.antt =====
-- The names that wallet.rs gives to new keys.
use native.Mathlib.Decide.{ℕ_discrete}
use ironcoin.Base.{
  ℕ, zero, suc, ◌+◌, ◌-◌, ◌*◌, ◌/◌, ◌%◌, ◌≤◌, ◌<◌, ◌≡◌, refl, sym, ◌∙◌, ap, true, false, Option,
  none, some, [], ◌∷◌, Bytes, list_eq, nat_eq, ◌==◌, list_beq_iff, keep, length, ltb, ltb→lt,
  Bool-cases, inl, inr, arith, if◌then◌else◌, get_or, subst,
}
use ironcoin.Base.Run.{ok}
use ironcoin.Message.Ledger.{get_bytes}
use ironcoin.Wallet.{Wallet, already_exists, decimal, generate_name, last_taken, make_name}

-- The number that digits stand for, after others.
value : ℕ → Bytes → ℕ
value n [] = n
value n (d ∷ ds) = value (n * 10 + (d - 48)) ds

value-decimal :
    (fuel n : ℕ) (rest : Bytes) → n < fuel → value 0 (decimal fuel n rest) ≡ value n rest
unfolding value decimal
value-decimal zero n rest h = elim h [ ]
value-decimal (suc fuel) n rest h = elim (Bool-cases (ltb n 10)) [
  | inl small ↦ rw (small, decimal) (ap (λ (k : ℕ). value k rest) (omega arith))
  | inr large ↦
      rw (large, decimal)
        (value-decimal fuel (n / 10) ((48 + n % 10) ∷ rest) (ground arith)
          ∙ ap (λ (k : ℕ). value k rest) (omega arith))
]

-- Different numbers have different names.
make_name_injective : (i j : ℕ) → make_name i ≡ make_name j → i ≡ j
unfolding make_name value
make_name_injective i j e =
    let digits : decimal (suc i) i [] ≡ decimal (suc j) j [] = cc in
    sym (value-decimal (suc i) i [] (omega arith))
    ∙ ap (value 0) digits
    ∙ value-decimal (suc j) j [] (omega arith)

-- The numbers from 1 to k whose name is a given one, and the key pairs that they name.
hits : ℕ → Bytes → ℕ
hits zero name = 0
hits (suc k) name = (if name == make_name (suc k) then 1 else 0) + hits k name

total : ℕ → Wallet → ℕ
total k [] = 0
total k (keypair ∷ wallet) = hits k (get_bytes keypair.name) + total k wallet

hits-later : (i k : ℕ) → k < i → hits k (make_name i) ≡ 0
unfolding hits
hits-later i zero h = refl
hits-later i (suc k) h = elim (Bool-cases (make_name i == make_name (suc k))) [
  | inl same ↦ absurd (omega (arith, make_name_injective i (suc k) ((list_beq_iff _ _).0 same)))
  | inr apart ↦ rw apart (omega (arith, hits-later i k))
]

hits-le : (k : ℕ) (name : Bytes) → hits k name ≤ 1
unfolding hits
hits-le zero name = omega arith
hits-le (suc k) name = elim (Bool-cases (name == make_name (suc k))) [
  | inl same ↦
      let here = (list_beq_iff _ _).0 same in
      rw here (
        rw ((list_beq_iff (make_name (suc k)) (make_name (suc k))).1 refl)
          (omega (arith, hits-later (suc k) k)))
  | inr apart ↦ rw apart (omega (arith, hits-le k name))
]

total-le : (k : ℕ) (wallet : Wallet) → total k wallet ≤ length wallet
unfolding total
total-le k [] = omega arith
total-le k (keypair ∷ wallet) = omega (arith, total-le k wallet, hits-le k (get_bytes keypair.name))

total-zero : (wallet : Wallet) → total 0 wallet ≡ 0
unfolding total hits
total-zero [] = refl
total-zero (keypair ∷ wallet) = omega (arith, total-zero wallet)

total-suc :
    (k : ℕ) (wallet : Wallet)
    → total (suc k) wallet
      ≡ length (keep (λ kp. get_bytes kp.name == make_name (suc k)) wallet) + total k wallet
unfolding total hits
total-suc k [] = refl
total-suc k (keypair ∷ wallet) = elim (Bool-cases (get_bytes keypair.name == make_name (suc k))) [
  | inl same ↦ rw same (omega (arith, total-suc k wallet))
  | inr apart ↦ rw apart (omega (arith, total-suc k wallet))
]

-- If each of the first k names is taken, the wallet has k key pairs.
le-total :
    (k : ℕ) (wallet : Wallet)
    → ((i : ℕ) → i < k → already_exists wallet (make_name (suc i)) ≡ true)
    → k ≤ total k wallet
unfolding already_exists
le-total zero wallet h = omega arith
le-total (suc k) wallet h = omega (
  arith,
  total-suc k wallet,
  le-total k wallet (λ i below. h i (omega arith)),
  ltb→lt 0 (length (keep (λ kp. get_bytes kp.name == make_name (suc k)) wallet))
      (h k (omega arith)),
)

-- A number whose name is free, while all before it are taken.
pub record IsNext (wallet : Wallet) (n : ℕ) : Type 0 where
  pub free : already_exists wallet (make_name (n + 1)) ≡ false
  pub taken : (i : ℕ) → i < n → already_exists wallet (make_name (i + 1)) ≡ true

last_taken-IsNext :
    (fuel k : ℕ) (last : Option ℕ) (wallet : Wallet)
    → get_or last 0 ≡ k
    → ((i : ℕ) → i < k → already_exists wallet (make_name (i + 1)) ≡ true)
    → length wallet < fuel + k
    → (l : Option ℕ) × (last_taken fuel (k + 1) last wallet ≡ ok l) × IsNext wallet (get_or l 0)
unfolding last_taken
last_taken-IsNext zero k last wallet at taken room =
    let all : k ≤ total k wallet = le-total k wallet (λ i below.
      subst (λ (j : ℕ). already_exists wallet (make_name j) ≡ true) {x = i + 1} {y = suc i}
        (omega arith) (taken i below)) in
    absurd (omega (arith, total-le k wallet))
last_taken-IsNext (suc fuel) k last wallet at taken room =
    elim (Bool-cases (already_exists wallet (make_name (k + 1)))) [
      | inr free ↦ (last, rw (free, last_taken) refl, rw at (record { free = free; taken = taken }))
      | inl more ↦
          let (l, e, next) =
            last_taken-IsNext fuel (k + 1) (some (k + 1)) wallet refl
              (λ i below. elim (ℕ_discrete i k) [
                | yes last ↦
                    subst (λ (j : ℕ). already_exists wallet (make_name (j + 1)) ≡ true) (sym last)
                      more
                | no before ↦ taken i (omega arith)
              ])
              (omega arith) in
          (l, rw (more, last_taken) e, next)
    ]

-- `generate_name` ends, within one more round than there are key pairs, with the name of the first
-- number from 1 on that no key pair of the wallet has.
pub generate_name-IsNext :
    (wallet : Wallet) → (n : ℕ) × (generate_name wallet ≡ ok (make_name (n + 1))) × IsNext wallet n
unfolding generate_name
generate_name-IsNext wallet =
    let (l, e, next) =
      last_taken-IsNext (suc (length wallet)) 0 none wallet refl (λ i below. absurd (omega arith))
        (omega arith) in
    (get_or l 0, rw e refl, next)
