-- ===== src/Base/Run.antt =====
-- `IroncResult<T>` of error.rs, with the panics of `unwrap`, `expect` and `assert!` beside it.
-- A description stands for the text that the code formats, with the values that it prints.
use Prim.Native.Nat.{ℕ}
use mathlib.Core.Logic.{◌⊎◌, inl, inr}
use mathlib.Core.Path.{◌≡◌, refl}
use mathlib.Core.Option.{Option, none, some}
use mathlib.Core.Bool.{Bool, true, false}
use mathlib.Core.List.{List, [], ◌∷◌}
use ironcoin.Base.Equality.{Bytes}

-- `IroncError`, by the message that it carries.
pub data IroncError : Type 0 where
  invalid_length : ℕ → ℕ → IroncError
  patch_mismatch : ℕ → ℕ → ℕ → ℕ → IroncError
  wrong_op_number : Bytes → ℕ → ℕ → IroncError
  not_enough_funds : ℕ → ℕ → Bytes → Bytes → IroncError
  missing_key invalid_source_key invalid_signature : IroncError
  invalid_hash : Bytes → Bytes → IroncError
  bounty_in_genesis genesis_transactions no_genesis : IroncError
  other_genesis : Bytes → Bytes → IroncError
  unknown_head previous_missing patch_missing staked_previous_missing : Bytes → IroncError
  invalid_height : ℕ → ℕ → IroncError
  unknown_block : Bytes → IroncError
  not_a_transfer not_a_payment not_a_key no_peers : IroncError
  unknown_source unknown_destination ambiguous_address : Bytes → IroncError
  not_an_address not_an_amount : Bytes → IroncError
  external : Bytes → IroncError

-- Where the code panics.
pub data Panic : Type 0 where
  unwrapped : IroncError → Panic
  unwrapped_none head_missing genesis_missing headless no_genesis_key : Panic
  invalid_head_hash invalid_genesis_hash head_history_missing target_history_missing : Panic
  reverted_genesis forwarded_genesis apply_result_asserted signatures_asserted : Panic
  index_out_of_bounds fuel_exhausted : Panic

-- A value, an error that the caller sees, or a panic.
pub data Run {ℓ} (Value : Type ℓ) : Type ℓ where
  panic : Panic → Run Value
  err : IroncError → Run Value
  ok : Value → Run Value

module _ {ℓ κ} {A : Type ℓ} {B : Type κ} where
  infixl 5 ◌>>=◌
  -- `try!`: the rest is run on a value only.
  abbrev pub ◌>>=◌ : Run A → (A → Run B) → Run B
  panic p >>= next = panic p
  err e >>= next = err e
  ok value >>= next = next value

  -- A bind that answers with a value, for proofs where its parts stay shut.
  pub >>=-ok :
      (first : Run A) (next : A → Run B) {answer : B}
      → (first >>= next) ≡ ok answer
      → (value : A) × (first ≡ ok value) × (next value ≡ ok answer)
  >>=-ok (panic p) next h = cc
  >>=-ok (err e) next h = cc
  >>=-ok (ok value) next h = (value, refl, h)

infixl 5 ◌>>◌
-- A statement, and those after it.
abbrev pub ◌>>◌ {ℓ} : {B : Type ℓ} → Run (Unit {0}) → Run B → Run B
first >> next = first >>= (λ _. next)

-- An error where a test fails.
abbrev pub guard : Bool → IroncError → Run (Unit {0})
guard false e = err e
guard true _ = ok tt

-- `ok_or`
abbrev pub ok_or {ℓ} : {A : Type ℓ} → Option A → IroncError → Run A
ok_or none e = err e
ok_or (some a) e = ok a

-- `expect` and `unwrap` of an option, and `assert!`
abbrev pub expect {ℓ} : {A : Type ℓ} → Option A → Panic → Run A
expect none p = panic p
expect (some a) p = ok a

abbrev pub assert : Bool → Panic → Run (Unit {0})
assert true p = ok tt
assert false p = panic p

-- `unwrap` of a result
abbrev pub unwrap {ℓ} : {A : Type ℓ} → Run A → Run A
unwrap (ok a) = ok a
unwrap (err e) = panic (unwrapped e)
unwrap (panic p) = panic p

-- A `for` loop whose body may return early with an error.
unfoldable pub for_all {ℓ} : {A : Type ℓ} → (A → Run (Unit {0})) → List A → Run (Unit {0})
for_all f [] = ok tt
for_all f (x ∷ xs) = f x >> for_all f xs

-- An answer that is no value.
abbrev pub refuse {ℓ} : {A : Type ℓ} → IroncError ⊎ Panic → Run A
refuse (inl e) = err e
refuse (inr p) = panic p

pub Run-cases {ℓ} :
    {A : Type ℓ} (r : Run A) → ((a : A) × (r ≡ ok a)) ⊎ ((c : IroncError ⊎ Panic) × (r ≡ refuse c))
Run-cases (ok a) = inl (a, refl)
Run-cases (err e) = inr (inl e, refl)
Run-cases (panic p) = inr (inr p, refl)

pub >>=-refuse {ℓ κ} :
    {A : Type ℓ} {B : Type κ} (c : IroncError ⊎ Panic) (f : A → Run B) → (refuse c >>= f) ≡ refuse c
>>=-refuse (inl e) f = refl
>>=-refuse (inr p) f = refl
