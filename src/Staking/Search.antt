-- ===== src/Staking/Search.antt =====
-- The search of staking.rs: how far the target is raised, and which template is returned.
use ironcoin.Base.{
  ℕ, zero, suc, ◌+◌, ◌-◌, ◌%◌, ◌^◌, ◌<◌, min, ◌≡◌, refl, sym, ◌∙◌, subst, some, none, List, arith,
  inl, inr, ◌⊎◌,
}
use ironcoin.Base.Run
use ironcoin.Base.Run.{Run, ok, err, panic}
use ironcoin.Base.Action.{and_then, pure, modify, ◌>>◌}
use ironcoin.Crypto.HashDigest.{HashDigest}
use ironcoin.External.{Sodium}
use ironcoin.Message.Ledger.{WalletKeypair}
use ironcoin.Staking.{
  BlockTemplate, Staker, i64_key, make_template, max_timestamp, proof_hashes, stake_interval,
  try_seconds,
}
use ironcoin.Staking.Target.{IsStaker, raise_target-IsStaker}
use ironcoin.Staking.Winner.{
  AreDigests, FirstBelow, NoneBefore, NoneBefore-suc, find_winner_lem, height_value,
}

-- The parts of a staker that the search leaves alone.
pub record Kept (staker staker' : Staker) : Type 0 where
  pub head : staker'.head_block ≡ staker.head_block
  pub untried : staker'.untried_timestamp ≡ staker.untried_timestamp
  pub keys : staker'.staking_keys ≡ staker.staking_keys

-- A staker is raised by `j` steps, to 85 at most.
pub record IsRaised (m k j : ℕ) (staker staker' : Staker) : Type 0 where
  pub raised : IsStaker m (min (k + j) 85) staker'
  pub kept : Kept staker staker'

IsRaised-zero : (m k : ℕ) (staker : Staker) → IsStaker m k staker → IsRaised m k 0 staker staker
IsRaised-zero m k staker i =
    let same : min (k + 0) 85 ≡ k = omega (arith, i.bound) in
    record {
      raised = subst (λ (j : ℕ). IsStaker m j staker) (sym same) i;
      kept = record { head = refl; untried = refl; keys = refl };
    }

IsRaised-suc :
    (m k j : ℕ) (staker raised staker' : Staker)
    → Kept staker raised
    → IsRaised m (min (suc k) 85) j raised staker'
    → IsRaised m k (suc j) staker staker'
IsRaised-suc m k j staker raised staker' first r =
    let same : min (min (suc k) 85 + j) 85 ≡ min (k + suc j) 85 = omega arith in
    record {
      raised = subst (λ (t : ℕ). IsStaker m t staker') same r.raised;
      kept = record {
        head = r.kept.head ∙ first.head;
        untried = r.kept.untried ∙ first.untried;
        keys = r.kept.keys ∙ first.keys;
      };
    }

module _ ⦃sodium : Sodium⦄ where
  -- The outcome of the seconds: none of them has a winner, or the `j`-th is the first that has.
  abbrev pub NoWinner : ℕ → ℕ → ℕ → ℕ → List (HashDigest × WalletKeypair) → Staker → Type 0
  NoWinner m k rounds timestamp proofs staker =
      (staker' : Staker) × (try_seconds rounds timestamp proofs staker ≡ (ok none, staker'))
      × NoneBefore m k rounds proofs
      × IsRaised m k rounds staker staker'

  abbrev pub Winner : ℕ → ℕ → ℕ → ℕ → List (HashDigest × WalletKeypair) → Staker → Type 0
  Winner m k rounds timestamp proofs staker =
      (j : ℕ) × (proof : HashDigest) × (keypair : WalletKeypair) × (staker' : Staker) × (j < rounds)
      × NoneBefore m k j proofs
      × FirstBelow (height_value m (min (k + j) 85)) proofs proof keypair
      × (try_seconds rounds timestamp proofs staker ≡ (
        Run.◌>>=◌ (make_template staker.head_block ((timestamp + j) % 2 ^ 64) proof keypair)
            (λ template. ok (some template)),
        staker',
      ))
      × IsRaised m k j staker staker'

  -- The seconds end without a winner, under a target that is one step higher for each of them,
  -- to 85 at most, or with a template of the second, the proof and the key that win.
  pub try_seconds_lem :
      (m k rounds timestamp : ℕ) (proofs : List (HashDigest × WalletKeypair)) (staker : Staker)
      → timestamp < 2 ^ 64
      → IsStaker m k staker
      → AreDigests m proofs
      → NoWinner m k rounds timestamp proofs staker ⊎ Winner m k rounds timestamp proofs staker
  unfolding try_seconds
  try_seconds_lem m k zero timestamp proofs staker small i sized =
      inl (staker, refl, (λ j h. absurd (omega arith)), IsRaised-zero m k staker i)
  try_seconds_lem m k (suc rounds) timestamp proofs staker small i sized =
      elim (find_winner_lem m k staker proofs i sized) [
        | inr (proof, keypair, won, first) ↦
            let same : min (k + 0) 85 ≡ k = omega (arith, i.bound) in
            let now : (timestamp + 0) % 2 ^ 64 ≡ timestamp = omega arith in
            inr (
              0,
              proof,
              keypair,
              staker,
              omega arith,
              (λ j h. absurd (omega arith)),
              rw same first,
              rw (won, try_seconds, now) refl,
              IsRaised-zero m k staker i,
            )
        | inl (lost, none_below) ↦
            let onto : (j : ℕ)
                → NoneBefore m (min (suc k) 85) j proofs
                → NoneBefore m k (suc j) proofs =
              λ j. NoneBefore-suc m k j proofs i.bound none_below in
            let (raised, e, i', head, untried, keys) = raise_target-IsStaker m k staker i in
            let onward : (j : ℕ) (staker' : Staker)
                → IsRaised m (min (suc k) 85) j raised staker'
                → IsRaised m k (suc j) staker staker' =
              λ j staker'.
                IsRaised-suc m k j staker raised staker'
                  (record { head = head; untried = untried; keys = keys }) in
            let same : (j : ℕ) → min (min (suc k) 85 + j) 85 ≡ min (k + suc j) 85 =
              λ j. omega arith in
            elim (try_seconds_lem m (min (suc k) 85) rounds ((timestamp + 1) % 2 ^ 64) proofs raised
              (omega arith) i' sized) [
                | inl (staker', e', before, r) ↦ inl (
                  staker',
                  rw (lost, try_seconds, e) e',
                  onto rounds before,
                  onward rounds staker' r,
                )
                | inr (j, proof, keypair, staker', less_rounds, before, first, e', r) ↦
                    let later : ((timestamp + 1) % 2 ^ 64 + j) % 2 ^ 64
                        ≡ (timestamp + suc j) % 2 ^ 64 =
                      omega arith in
                    inr (
                      suc j,
                      proof,
                      keypair,
                      staker',
                      omega arith,
                      onto j before,
                      rw (← same j) first,
                      rw (lost, try_seconds, e) (e' ∙ rw (head, later) refl),
                      onward j staker' r,
                    )
              ]
      ]

  -- The end of `stake_interval` passes a template on.
  template_answer :
      (r : Run BlockTemplate) (staker : Staker) (last : ℕ)
      → and_then
          (Run.◌>>=◌ r (λ template. ok (some template)), staker)
          (λ found. elim found [
            | some template ↦ pure (some template)
            | none ↦ modify (λ s. record s { untried_timestamp = last }) >> pure none
          ])
        ≡ (Run.◌>>=◌ r (λ template. ok (some template)), staker)
  template_answer (ok template) staker last = refl
  template_answer (err e) staker last = refl
  template_answer (panic p) staker last = refl

  -- The seconds of one call.
  abbrev pub rounds_of : ℕ → ℕ → Staker → ℕ
  rounds_of now interval staker =
      i64_key (max_timestamp staker.untried_timestamp interval now)
      - i64_key staker.untried_timestamp

  -- `stake_interval`, where the public keys of the wallet decode and their proofs have as many
  -- bytes as the target, tries one second after the other under a target that is one step higher
  -- for each of them, to 85 steps at most. Either no proof is below the target of any second of its
  -- interval, and it then answers with no template, has raised the target once for each second,
  -- continues after the interval and keeps its head and keys; or in one second a proof is the first
  -- of the keys' that is below the target of that second, no proof is below that of an earlier one,
  -- and it answers as `make_template` does for that second, proof and key. No index is out of
  -- bounds.
  pub stake_interval_lem :
      (m k now interval : ℕ) (staker : Staker) (proofs : List (HashDigest × WalletKeypair))
      → IsStaker m k staker
      → staker.untried_timestamp < 2 ^ 64
      → proof_hashes staker.head_block staker.staking_keys ≡ ok proofs
      → AreDigests m proofs
      → ((staker' : Staker) × (stake_interval now interval staker ≡ (ok none, staker'))
          × NoneBefore m k (rounds_of now interval staker) proofs
          × IsStaker m (min (k + rounds_of now interval staker) 85) staker'
          × (staker'.untried_timestamp ≡ max_timestamp staker.untried_timestamp interval now)
          × (staker'.head_block ≡ staker.head_block)
          × (staker'.staking_keys ≡ staker.staking_keys))
        ⊎ ((j : ℕ) × (proof : HashDigest) × (keypair : WalletKeypair) × (staker' : Staker) × (j
              < rounds_of now interval staker)
            × NoneBefore m k j proofs
            × FirstBelow (height_value m (min (k + j) 85)) proofs proof keypair
            × (stake_interval now interval staker ≡ (
              Run.◌>>=◌
                  (make_template staker.head_block
                    ((staker.untried_timestamp + j) % 2 ^ 64)
                    proof
                    keypair)
                  (λ template. ok (some template)),
              staker',
            ))
            × IsRaised m k j staker staker')
  unfolding stake_interval
  stake_interval_lem m k now interval staker proofs i small keys sized =
      let rounds = rounds_of now interval staker in
      elim (try_seconds_lem m k rounds staker.untried_timestamp proofs staker small i sized) [
        | inl (staker', e, before, r) ↦ inl (
          record staker' {
            untried_timestamp = max_timestamp staker.untried_timestamp interval now;
          },
          rw (keys, e),
          before,
          record {
            target_size = r.raised.target_size;
            target_bytes = r.raised.target_bytes;
            target = r.raised.target;
            step_size = r.raised.step_size;
            step_bytes = r.raised.step_bytes;
            step = r.raised.step;
            bound = r.raised.bound;
          },
          refl,
          r.kept.head,
          r.kept.keys,
        )
        | inr (j, proof, keypair, staker', less_rounds, before, first, e, r) ↦ inr (
          j,
          proof,
          keypair,
          staker',
          less_rounds,
          before,
          first,
          rw (keys, e) (template_answer _ staker' _),
          r,
        )
      ]
