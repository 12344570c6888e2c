-- ===== src/Tests/Coder.antt =====
-- Codecs to run the model with: each reads back what it writes, whatever bytes follow.
use ironcoin.Base.{ℕ, zero, suc, ◌≡◌, refl, ap, Option, none, some, List, [], ◌∷◌, Bytes, length}
use ironcoin.Base.Run.{Run, ok, err, IroncError}
use ironcoin.External.{Codec, IsFaithful}

pub record Coder (A : Type 0) : Type 0 where
  pub put : A → Bytes → Bytes
  pub get : Bytes → Option (A × Bytes)
  pub get-put : (a : A) (rest : Bytes) → get (put a rest) ≡ some (a, rest)

abbrev pub then_get : {A B : Type 0} → Option (A × Bytes) → (A → Bytes → Option B) → Option B
then_get none f = none
then_get (some (a, rest)) f = f a rest

abbrev get_num : Bytes → Option (ℕ × Bytes)
get_num [] = none
get_num (n ∷ rest) = some (n, rest)

abbrev pub num : Coder ℕ
num = record { put = λ n rest. n ∷ rest; get = get_num; get-put = λ n rest. refl }

module _ {A B : Type 0} (a : Coder A) (b : Coder B) where
  abbrev get_pair : Bytes → Option ((A × B) × Bytes)
  get_pair bytes =
      then_get (a.get bytes) (λ x rest. then_get (b.get rest) (λ y rest'. some ((x, y), rest')))

  abbrev put_pair : A × B → Bytes → Bytes
  put_pair (x, y) rest = a.put x (b.put y rest)

  pub get_pair-put : (p : A × B) (rest : Bytes) → get_pair (put_pair p rest) ≡ some (p, rest)
  get_pair-put (x, y) rest = rw (a.get-put x (b.put y rest), b.get-put y rest)

  abbrev pub pair : Coder (A × B)
  pair = record { put = put_pair; get = get_pair; get-put = get_pair-put }

module _ {A : Type 0} (a : Coder A) where
  abbrev get_option : Bytes → Option (Option A × Bytes)
  get_option [] = none
  get_option (zero ∷ rest) = some (none, rest)
  get_option (suc n ∷ rest) = then_get (a.get rest) (λ x rest'. some (some x, rest'))

  abbrev put_option : Option A → Bytes → Bytes
  put_option none rest = 0 ∷ rest
  put_option (some x) rest = 1 ∷ a.put x rest

  pub get_option-put :
      (o : Option A) (rest : Bytes) → get_option (put_option o rest) ≡ some (o, rest)
  get_option-put none rest = refl
  get_option-put (some x) rest = rw (a.get-put x rest)

  abbrev pub option : Coder (Option A)
  option = record { put = put_option; get = get_option; get-put = get_option-put }

  abbrev get_items : ℕ → Bytes → Option (List A × Bytes)
  get_items zero bytes = some ([], bytes)
  get_items (suc n) bytes =
      then_get (a.get bytes)
        (λ x rest. then_get (get_items n rest) (λ xs rest'. some (x ∷ xs, rest')))

  abbrev put_items : List A → Bytes → Bytes
  put_items [] rest = rest
  put_items (x ∷ xs) rest = a.put x (put_items xs rest)

  pub get_items-put :
      (xs : List A) (rest : Bytes) → get_items (length xs) (put_items xs rest) ≡ some (xs, rest)
  get_items-put [] rest = refl
  get_items-put (x ∷ xs) rest = rw (a.get-put x (put_items xs rest), get_items-put xs rest)

  abbrev get_list : Bytes → Option (List A × Bytes)
  get_list [] = none
  get_list (n ∷ rest) = get_items n rest

  abbrev pub list : Coder (List A)
  list = record {
    put = λ xs rest. length xs ∷ put_items xs rest;
    get = get_list;
    get-put = get_items-put;
  }

-- Along a map and its inverse, as from a tuple of fields to a record.
module _ {A B : Type 0} (a : Coder A) (to : A → B) (from : B → A)
    (same : (y : B) → to (from y) ≡ y) where
  abbrev get_along : Bytes → Option (B × Bytes)
  get_along bytes = then_get (a.get bytes) (λ x rest. some (to x, rest))

  pub get_along-put : (y : B) (rest : Bytes) → get_along (a.put (from y) rest) ≡ some (y, rest)
  get_along-put y rest = rw (a.get-put (from y) rest, same y)

  abbrev pub along : Coder B
  along = record { put = λ y rest. a.put (from y) rest; get = get_along; get-put = get_along-put }

module _ {A : Type 0} (a : Coder A) where
  abbrev whole : Option (A × Bytes) → Run A
  whole (some (x, [])) = ok x
  whole _ = err (IroncError.external [])

  abbrev pub codec : Codec A
  codec = record {
    write_to_bytes = λ x. ok (a.put x []);
    parse_from_bytes = λ bytes. whole (a.get bytes);
  }

  pub codec-IsFaithful : IsFaithful codec
  codec-IsFaithful = record {
    encode = λ x. a.put x [];
    write-eq = λ x. refl;
    parse-encode = λ x. ap whole (a.get-put x []);
  }
