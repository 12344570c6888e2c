-- ===== src/Base/Action.antt =====
-- A method on `&mut self`: it returns its result and the state, which keeps what was written
-- before an error.
use mathlib.Core.List.{List, [], ◌∷◌}
use mathlib.Core.Path.{◌≡◌, refl}
use mathlib.Core.Logic.{◌⊎◌, inl, inr}
use ironcoin.Base.Run.{Run, ok, err, panic, refuse, IroncError, Panic}

abbrev pub Action : Type 0 → Type 0 → Type 0
Action S A = S → Run A × S

module _ {S A : Type 0} where
  abbrev pub pure : A → Action S A
  pure a s = (ok a, s)

  abbrev pub raise : IroncError → Action S A
  raise e s = (err e, s)

  abbrev pub gets : (S → A) → Action S A
  gets f s = (ok (f s), s)

  -- A read that may fail.
  abbrev pub reads : (S → Run A) → Action S A
  reads f s = (f s, s)

  abbrev pub lift : Run A → Action S A
  lift r s = (r, s)

abbrev pub modify : {S : Type 0} → (S → S) → Action S (Unit {0})
modify f s = (ok tt, f s)

-- What follows a call, by how the call ended.
abbrev pub and_then : {S A B : Type 0} → Run A × S → (A → Action S B) → Run B × S
and_then (ok a, s) f = f a s
and_then (err e, s) f = (err e, s)
and_then (panic p, s) f = (panic p, s)

infixl 5 ◌>>=◌ ◌>>◌
abbrev pub ◌>>=◌ : {S A B : Type 0} → Action S A → (A → Action S B) → Action S B
◌>>=◌ m f s = and_then (m s) f

abbrev pub ◌>>◌ : {S A B : Type 0} → Action S A → Action S B → Action S B
m >> k = m >>= λ _. k

-- A `for` loop whose body may return early with an error.
unfoldable pub for_each : {S A : Type 0} → (A → Action S (Unit {0})) → List A → Action S (Unit {0})
for_each f [] = pure tt
for_each f (x ∷ xs) = f x >> for_each f xs

-- After a refusal nothing is run.
pub and_then-refuse :
    {S A B : Type 0} (c : IroncError ⊎ Panic) (s : S) (f : A → Action S B)
    → and_then (refuse c, s) f ≡ (refuse c, s)
and_then-refuse (inl e) s f = refl
and_then-refuse (inr p) s f = refl
