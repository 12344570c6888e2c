-- ===== src/Balance/Patches.antt =====
-- The patches of a snapshot of balance.rs, applied to a ledger and reverted from it.
use ironcoin.Base.{◌≡◌, refl, ◌∙◌, none, some, [], ◌∷◌, false, ◌==◌, arith, Bool-cases, inl, inr}
use ironcoin.Base.Map.{Map, lookup}
use ironcoin.Base.Run.{ok}
use ironcoin.Base.Action.{for_each}
use ironcoin.Balance.{LedgerMutator, apply_patch}
use ironcoin.Balance.Ledger.{IsLedger, apply_patch-matching}
use ironcoin.Balance.Snapshot.{changed_patches}
use ironcoin.Balance.View.{Accounts, IsCache, after_cache, update}
use ironcoin.Crypto.PublicKey.{PublicKey, public_key_eq, public_key_beq_iff}
use ironcoin.External.{Sodium}
use ironcoin.Message.Ledger.{BalancePatch, balance_eq, balance_beq_iff, get_after, get_before}

-- The balances `g` are those that the patches of a cache start from.
abbrev pub StartsAt : Accounts → Map PublicKey BalancePatch → Type 0
StartsAt g cache =
    (q : PublicKey) (patch : BalancePatch) → lookup q cache ≡ some patch → g q ≡ get_before patch

-- The steps of an induction over a cache.
StartsAt-head :
    (g : Accounts) (address : PublicKey) (patch : BalancePatch) (cache : Map PublicKey BalancePatch)
    → StartsAt g ((address, patch) ∷ cache)
    → g address ≡ get_before patch
StartsAt-head g address patch cache h =
    h address patch (rw ((public_key_beq_iff address address).1 refl))

module _ (address : PublicKey) (patch : BalancePatch) (cache : Map PublicKey BalancePatch)
    (new : lookup address cache ≡ none) (g g' : Accounts) where
  StartsAt-tail :
      ((q : PublicKey) → g' q ≡ update g address (get_after patch) q)
      → StartsAt g ((address, patch) ∷ cache)
      → StartsAt g' cache
  StartsAt-tail moved h q other e =
      let apart : (address == q) ≡ false = ground (arith, public_key_beq_iff address q) in
      moved q ∙ rw apart (h q other (rw apart e))

  StartsAt-skip : StartsAt g ((address, patch) ∷ cache) → StartsAt g cache
  StartsAt-skip h q other e =
      let apart : (address == q) ≡ false = ground (arith, public_key_beq_iff address q) in
      h q other (rw apart e)

  after-skip :
      g address ≡ get_before patch
      → get_before patch ≡ get_after patch
      → (q : PublicKey) → after_cache g cache q ≡ after_cache g ((address, patch) ∷ cache) q
  after-skip same idle q = ground (arith, public_key_beq_iff address q)

  after-tail :
      ((q : PublicKey) → g' q ≡ update g address (get_after patch) q)
      → (q : PublicKey) → after_cache g' cache q ≡ after_cache g ((address, patch) ∷ cache) q
  after-tail moved q = ground (arith, moved q, public_key_beq_iff address q)

module _ ⦃sodium : Sodium⦄ {L : Type 0} {ledger : LedgerMutator L} {Inv : L → Type 0}
    {view : L → Accounts} (laws : IsLedger ledger Inv view) where
  -- The patches of a snapshot, in the order of its cache whatever that is, apply to any ledger
  -- with the balances that they start from, and lead to those that the snapshot shows.
  pub apply-changed_patches :
      (cache : Map PublicKey BalancePatch) (l : L)
      → IsCache cache
      → Inv l
      → StartsAt (view l) cache
      → (l' : L) × (for_each (apply_patch ledger) (changed_patches cache) l ≡ (ok tt, l'))
        × Inv l'
        × ((q : PublicKey) → view l' q ≡ after_cache (view l) cache q)
  unfolding changed_patches for_each
  apply-changed_patches [] l h inv starts = (l, refl, inv, λ q. refl)
  apply-changed_patches ((address, patch) ∷ cache) l h inv starts =
      let first = StartsAt-head (view l) address patch cache starts in
      elim (Bool-cases (get_before patch == get_after patch)) [
        | inl idle ↦
            let (l', e, inv', shows) =
              apply-changed_patches cache l h.3 inv
                (StartsAt-skip address patch cache h.2 (view l) (view l) starts) in
            (
              l',
              rw idle e,
              inv',
              λ q.
                  shows q
                  ∙ after-skip address patch cache h.2 (view l) (view l) first
                      ((balance_beq_iff (get_before patch) (get_after patch)).0 idle) q,
            )
        | inr moves ↦
            let (l₁, e₁, inv₁, writes) =
              apply_patch-matching laws address patch l (record { named = h.0; sized = h.1 }) inv
                first in
            let (l', e, inv', shows) =
              apply-changed_patches cache l₁ h.3 inv₁
                (StartsAt-tail address patch cache h.2 (view l) (view l₁) writes starts) in
            (
              l',
              rw (moves, e₁) e,
              inv',
              λ q. shows q ∙ after-tail address patch cache h.2 (view l) (view l₁) writes q,
            )
      ]
