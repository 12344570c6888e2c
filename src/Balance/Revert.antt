-- ===== src/Balance/Revert.antt =====
-- `reverse` and `commit` of balance.rs: patches turned round, and patches taken as done.
use mathlib.Core.Option
use ironcoin.Base.{◌≡◌, refl, some, List, [], ◌∷◌, map, arith, Option-cases, inl, inr}
use ironcoin.Base.Map.{Map, lookup}
use ironcoin.Base.Run.{ok}
use ironcoin.Base.Action.{Action, for_each}
use ironcoin.Balance.{LedgerMutator, apply_patch, reverse}
use ironcoin.Balance.Ledger.{IsLedger}
use ironcoin.Balance.Patches.{StartsAt, apply-changed_patches}
use ironcoin.Balance.Snapshot.{
  LedgerSnapshot, changed_patches, commit, commit_patches, make_patches,
}
use ironcoin.Balance.View.{Accounts, IsCache, after_cache, before_cache}
use ironcoin.Crypto.PublicKey.{PublicKey, public_key_eq}
use ironcoin.External.{Sodium}
use ironcoin.Message.Ledger.{BalancePatch, balance_eq, balance_beq_iff, get_after, get_before}

-- The cache with every patch turned round.
reversed : Map PublicKey BalancePatch → Map PublicKey BalancePatch
reversed [] = []
reversed ((address, patch) ∷ cache) = (address, reverse patch) ∷ reversed cache

lookup-reversed :
    (q : PublicKey) (cache : Map PublicKey BalancePatch)
    → lookup q (reversed cache) ≡ Option.map reverse (lookup q cache)
unfolding reversed
lookup-reversed q [] = refl
lookup-reversed q ((address, patch) ∷ cache) = ground (arith, lookup-reversed q cache)

changed_patches-reversed :
    (cache : Map PublicKey BalancePatch)
    → map reverse (changed_patches cache) ≡ changed_patches (reversed cache)
unfolding reversed changed_patches reverse
changed_patches-reversed [] = refl
changed_patches-reversed ((address, patch) ∷ cache) = ground (
  arith,
  balance_beq_iff (get_before patch) (get_after patch),
  balance_beq_iff (get_after patch) (get_before patch),
  changed_patches-reversed cache,
)

for_each-map :
    {S A : Type 0} (f : A → Action S (Unit {0})) (g : A → A) (xs : List A)
    → for_each (λ x. f (g x)) xs ≡ for_each f (map g xs)
unfolding for_each
for_each-map f g [] = refl
for_each-map f g (x ∷ xs) = rw (for_each-map f g xs)

module _ ⦃sodium : Sodium⦄ where
  reversed-IsCache : (cache : Map PublicKey BalancePatch) → IsCache cache → IsCache (reversed cache)
  unfolding reversed reverse
  reversed-IsCache [] h = tt
  reversed-IsCache ((address, patch) ∷ cache) h =
      ground (arith, reversed-IsCache cache h.3, lookup-reversed address cache)

  module _ {L : Type 0} {ledger : LedgerMutator L} {Inv : L → Type 0} {view : L → Accounts}
      (laws : IsLedger ledger Inv view) where
    -- The reversed patches of a snapshot apply to any ledger with the balances that the snapshot
    -- shows, and lead back to the balances that it started from.
    pub apply-reversed_patches :
        (cache : Map PublicKey BalancePatch) (g : Accounts) (l : L)
        → IsCache cache
        → Inv l
        → StartsAt g cache
        → ((q : PublicKey) → view l q ≡ after_cache g cache q)
        → (l' : L) × (for_each
              (λ patch. apply_patch ledger (reverse patch))
              (changed_patches cache)
              l
            ≡ (ok tt, l'))
          × Inv l'
          × ((q : PublicKey) → view l' q ≡ g q)
    unfolding reverse
    apply-reversed_patches cache g l h inv starts at_end =
        let back : StartsAt (view l) (reversed cache) = λ q patch e.
          elim (Option-cases (lookup q cache)) [
            | inl new ↦ ground (arith, lookup-reversed q cache)
            | inr (old, o) ↦ ground (arith, lookup-reversed q cache, at_end q)
          ] in
        let (l', e, inv', shows) =
          apply-changed_patches laws (reversed cache) l (reversed-IsCache cache h) inv back in
        (
          l',
          rw
              (
                for_each-map (apply_patch ledger) reverse (changed_patches cache),
                changed_patches-reversed cache,
              )
              e,
          inv',
          λ q. elim (Option-cases (lookup q cache)) [
            | inl new ↦ ground (arith, lookup-reversed q cache, at_end q, shows q)
            | inr (old, o) ↦ ground (arith, lookup-reversed q cache, shows q, starts q old o)
          ],
        )

lookup-commit_patches :
    (q : PublicKey) (cache : Map PublicKey BalancePatch)
    → lookup q (commit_patches cache)
      ≡ Option.map (λ (p : BalancePatch). record p { before = some (get_after p) }) (lookup q cache)
unfolding commit_patches
lookup-commit_patches q [] = refl
lookup-commit_patches q ((address, patch) ∷ cache) = ground (arith, lookup-commit_patches q cache)

pub commit_patches-IsCache :
    ⦃sodium : Sodium⦄
    → (cache : Map PublicKey BalancePatch) → IsCache cache
    → IsCache (commit_patches cache)
unfolding commit_patches
commit_patches-IsCache [] h = tt
commit_patches-IsCache ((address, patch) ∷ cache) h =
    ground (arith, commit_patches-IsCache cache h.3, lookup-commit_patches address cache)

commit_patches-unchanged :
    (cache : Map PublicKey BalancePatch) → changed_patches (commit_patches cache) ≡ []
unfolding commit_patches changed_patches
commit_patches-unchanged [] = refl
commit_patches-unchanged ((address, patch) ∷ cache) =
    ground
      (arith, commit_patches-unchanged cache, balance_beq_iff (get_after patch) (get_after patch))

-- After `commit` a snapshot shows the same balances, starts from them, and has no patches to make.
pub commit_lem :
    {L : Type 0} (f : Accounts) (s : LedgerSnapshot L)
    → ((q : PublicKey) → after_cache f (commit s).cache q ≡ after_cache f s.cache q)
      × ((q : PublicKey) → before_cache f (commit s).cache q ≡ after_cache f s.cache q)
      × (make_patches (commit s) ≡ [])
unfolding commit make_patches
commit_lem f s = (
  λ q. ground (arith, lookup-commit_patches q s.cache),
  λ q. ground (arith, lookup-commit_patches q s.cache),
  commit_patches-unchanged s.cache,
)
