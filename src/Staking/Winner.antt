-- ===== src/Staking/Winner.antt =====
-- The inner loop of `stake_interval` in staking.rs, by the numbers of the proofs and of the target.
use ironcoin.Base.{
  ℕ, zero, suc, ◌≤◌, ◌*◌, ◌^◌, ◌+◌, ◌<◌, min, ◌↔◌, subst, ◌≡◌, refl, sym, ◌∙◌, ap, false, true,
  some, none, List, [], ◌∷◌, ◌++◌, ◌⊎◌, inl, inr, length, All, arith,
}
use ironcoin.Crypto.HashDigest.{HashDigest, less}
use ironcoin.Crypto.Order.{less_iff}
use ironcoin.Crypto.Value.{IsBytes, value}
use ironcoin.External.{Sodium}
use ironcoin.Message.Ledger.{WalletKeypair}
use ironcoin.Staking.{Staker, find_winner}
use ironcoin.Staking.Target.{IsStaker}

-- The proofs are digests of `suc m` bytes.
abbrev pub AreDigests : ℕ → List (HashDigest × WalletKeypair) → Type 0
AreDigests m = All (λ p. (length p.0.bytes ≡ suc m) × IsBytes p.0.bytes)

-- The number of a target that is `k` steps high.
abbrev pub height_value : ℕ → ℕ → ℕ
height_value m k = 3 * k * 256 ^ m

-- No proof is below the bound.
abbrev pub NoneBelow : ℕ → List (HashDigest × WalletKeypair) → Type 0
NoneBelow bound = All (λ p. ¬ (value p.0.bytes < bound))

-- A proof, with its key, is the first that is below the bound.
abbrev pub FirstBelow : ℕ → List (HashDigest × WalletKeypair) → HashDigest → WalletKeypair → Type 0
FirstBelow bound proofs proof keypair =
    (before : List (HashDigest × WalletKeypair)) × (after : List (HashDigest × WalletKeypair))
    × (proofs ≡ before ++ (proof, keypair) ∷ after)
    × NoneBelow bound before
    × (value proof.bytes < bound)

-- `less` against the target of a staker that is `k` steps high.
less_target :
    (m k : ℕ) (staker : Staker) (proof : HashDigest)
    → IsStaker m k staker
    → length proof.bytes ≡ suc m
    → IsBytes proof.bytes
    → (less proof staker.target_hash ≡ true × (value proof.bytes < height_value m k))
      ⊎ (less proof staker.target_hash ≡ false × ¬ (value proof.bytes < height_value m k))
less_target m k staker proof i size bytes =
    let agree : (less proof staker.target_hash ≡ true) ↔ (value proof.bytes < height_value m k) =
      subst (λ (bound : ℕ). (less proof staker.target_hash ≡ true) ↔ (value proof.bytes < bound))
        i.target
        (less_iff proof staker.target_hash (size ∙ sym i.target_size) bytes i.target_bytes) in
    ground arith

-- In none of the first seconds a proof is below the target of that second.
abbrev pub NoneBefore : ℕ → ℕ → ℕ → List (HashDigest × WalletKeypair) → Type 0
NoneBefore m k seconds proofs =
    (i : ℕ) → i < seconds → NoneBelow (height_value m (min (k + i) 85)) proofs

pub NoneBefore-suc :
    (m k seconds : ℕ) (proofs : List (HashDigest × WalletKeypair))
    → k ≤ 85
    → NoneBelow (height_value m k) proofs
    → NoneBefore m (min (suc k) 85) seconds proofs
    → NoneBefore m k (suc seconds) proofs
NoneBefore-suc m k seconds proofs bound first others zero h =
    let same : min (k + 0) 85 ≡ k = omega arith in rw same first
NoneBefore-suc m k seconds proofs bound first others (suc i) h =
    let same : min (k + suc i) 85 ≡ min (min (suc k) 85 + i) 85 = omega arith in
    rw same (others i (omega arith))

module _ ⦃sodium : Sodium⦄ where
  -- Either no proof is below the target and there is no winner, or the winner is the first that is.
  pub find_winner_lem :
      (m k : ℕ) (staker : Staker) (proofs : List (HashDigest × WalletKeypair))
      → IsStaker m k staker
      → AreDigests m proofs
      → (find_winner staker.target_hash proofs ≡ none × NoneBelow (height_value m k) proofs)
        ⊎ ((proof : HashDigest) × (keypair : WalletKeypair) × (find_winner staker.target_hash proofs
              ≡ some (proof, keypair))
            × FirstBelow (height_value m k) proofs proof keypair)
  unfolding find_winner
  find_winner_lem m k staker [] i sized = inl (refl, tt)
  find_winner_lem m k staker ((proof, keypair) ∷ rest) i (sized, others) =
      elim (less_target m k staker proof i sized.0 sized.1) [
        | inl (e, below) ↦ inr (proof, keypair, rw e refl, ([], rest, refl, tt, below))
        | inr (e, above) ↦ elim (find_winner_lem m k staker rest i others) [
          | inl (lost, none_below) ↦ inl (rw e lost, (above, none_below))
          | inr (winner, key, won, (before, after, shape, none_before, below)) ↦ inr (
            winner,
            key,
            rw e won,
            (
              (proof, keypair) ∷ before,
              after,
              ap (λ ps. (proof, keypair) ∷ ps) shape,
              (above, none_before),
              below,
            ),
          )
        ]
      ]
