-- ===== src/Crypto/Order.antt =====
-- The order of digests in crypto.rs is the order of the numbers that they stand for.
use Prim.Native.Nat.{compare, Ordering}
use mathlib.Core.List.{reverse, reverse-cons}
use ironcoin.Base.{
  ℕ, ◌<◌, ◌≡◌, refl, ◌∙◌, sym, true, ◌↔◌, [], ◌∷◌, ◌++◌, Bytes, length, length-append, arith,
}
use ironcoin.Crypto.HashDigest.{HashDigest, compare_from, less, partial_cmp}
use ironcoin.Crypto.Value.{IsBytes, value}

-- The order of two places, where the higher one decides if it can.
abbrev then_compare : Ordering → ℕ → ℕ → Ordering
then_compare high a b = elim high [ Ordering.eq ↦ compare a b | other ↦ other ]

compare_from-append :
    (xs ys : Bytes) (a b : ℕ)
    → length xs ≡ length ys
    → compare_from (xs ++ a ∷ []) (ys ++ b ∷ []) ≡ then_compare (compare_from xs ys) a b
unfolding compare_from
compare_from-append [] [] a b e = ground arith
compare_from-append (x ∷ xs) [] a b e = absurd (omega arith)
compare_from-append [] (y ∷ ys) a b e = absurd (omega arith)
compare_from-append (x ∷ xs) (y ∷ ys) a b e = ground (arith, compare_from-append xs ys a b)

length-reverse : (xs : Bytes) → length (reverse xs) ≡ length xs
length-reverse [] = refl
length-reverse (x ∷ xs) =
    rw (reverse-cons x xs, length-append (reverse xs) (x ∷ [])) (omega (arith, length-reverse xs))

compare-value :
    (xs ys : Bytes)
    → length xs ≡ length ys
    → IsBytes xs
    → IsBytes ys
    → compare_from (reverse xs) (reverse ys) ≡ compare (value xs) (value ys)
unfolding value compare_from
compare-value [] [] e hx hy = refl
compare-value (x ∷ xs) [] e hx hy = absurd (omega arith)
compare-value [] (y ∷ ys) e hx hy = absurd (omega arith)
compare-value (x ∷ xs) (y ∷ ys) e hx hy =
    rw
      (
        reverse-cons x xs,
        reverse-cons y ys,
        compare_from-append (reverse xs) (reverse ys) x y
            (length-reverse xs ∙ omega arith ∙ sym (length-reverse ys)),
        compare-value xs ys (omega arith) hx.1 hy.1,
      )
      (ground arith)

-- `partial_cmp` compares the numbers of two digests of one length.
pub partial_cmp-value :
    (a b : HashDigest)
    → length a.bytes ≡ length b.bytes
    → IsBytes a.bytes
    → IsBytes b.bytes
    → partial_cmp a b ≡ compare (value a.bytes) (value b.bytes)
unfolding partial_cmp
partial_cmp-value a b e ha hb = compare-value a.bytes b.bytes e ha hb

-- `<` on digests of one length is `<` on their numbers.
pub less_iff :
    (a b : HashDigest)
    → length a.bytes ≡ length b.bytes
    → IsBytes a.bytes
    → IsBytes b.bytes
    → (less a b ≡ true) ↔ (value a.bytes < value b.bytes)
unfolding less
less_iff a b e ha hb = rw (partial_cmp-value a b e ha hb, less) (ground arith)
