-- ===== src/Tests/Stakes.antt =====
-- The theorems on the staker, with one key over the genesis of the test chain.
use ironcoin.Base.{ℕ, ◌+◌, ◌%◌, ◌^◌, ◌<◌, min, ◌≡◌, refl, none, some, List, [], ◌∷◌, ◌⊎◌, arith}
use ironcoin.Base.Run
use ironcoin.Base.Run.{Run, ok}
use ironcoin.Crypto.HashDigest.{HashDigest}
use ironcoin.Crypto.Value.{IsBytes, value}
use ironcoin.Message.Ledger.{WalletKeypair}
use ironcoin.Staking
use ironcoin.Staking.{
  Staker, find_winner, make_template, max_timestamp, proof_hashes, raise_target, set_head_block,
  stake_interval,
}
use ironcoin.Staking.Search.{IsRaised, rounds_of, stake_interval_lem}
use ironcoin.Staking.Start.{new-IsStaker}
use ironcoin.Staking.Target.{IsStaker, raise_target-IsStaker}
use ironcoin.Staking.Winner.{AreDigests, FirstBelow, NoneBefore, height_value}
use ironcoin.Tests.Chain.{genesis_hash}
use ironcoin.Tests.World.{sodium, sodium-HasSizes}

abbrev keys : List WalletKeypair
keys = record { public_key = some (11 ∷ []); secret_key = some (11 ∷ []); name = none } ∷ []

abbrev step : HashDigest
step = record { bytes = 0 ∷ 0 ∷ 0 ∷ 0 ∷ 0 ∷ 0 ∷ 0 ∷ 3 ∷ [] }

-- A staker one step high.
abbrev pub staker : Staker
staker = record {
  head_block = genesis_hash;
  target_hash = step;
  target_step = step;
  untried_timestamp = 1001;
  staking_keys = keys;
}

step-IsBytes : IsBytes step.bytes
step-IsBytes = ground arith

staker-IsStaker : IsStaker 7 1 staker
unfolding value
staker-IsStaker = record {
  target_size = refl;
  target_bytes = step-IsBytes;
  target = refl;
  step_size = refl;
  step_bytes = step-IsBytes;
  step = refl;
  bound = omega arith;
}

raise_target-IsStaker_example :
    (raised : Staker) × (raise_target staker ≡ ok raised)
    × IsStaker 7 2 raised
    × (raised.head_block ≡ genesis_hash)
    × (raised.untried_timestamp ≡ 1001)
    × (raised.staking_keys ≡ keys)
raise_target-IsStaker_example = raise_target-IsStaker 7 1 staker staker-IsStaker

new-IsStaker_example :
    (made : Staker) × (Staking.new keys genesis_hash 1000 ≡ ok made)
    × IsStaker 7 0 made
    × (made.head_block ≡ genesis_hash)
    × (made.untried_timestamp ≡ 1001)
    × (made.staking_keys ≡ keys)
new-IsStaker_example = new-IsStaker sodium-HasSizes 7 keys genesis_hash 1000 refl

abbrev proofs : List (HashDigest × WalletKeypair)
proofs =
    (
      record { bytes = 190 ∷ 0 ∷ 0 ∷ 0 ∷ 0 ∷ 0 ∷ 0 ∷ 0 ∷ [] },
      record { public_key = some (11 ∷ []); secret_key = some (11 ∷ []); name = none },
    )
    ∷ []

proofs_made : proof_hashes genesis_hash keys ≡ ok proofs
unfolding proof_hashes
proofs_made = refl

proofs-AreDigests : AreDigests 7 proofs
proofs-AreDigests = ((refl, ground arith), tt)

early : 1001 < 2 ^ 64
early = omega arith

stake_interval_lem_example :
    ((staker' : Staker) × (stake_interval 1000 1 staker ≡ (ok none, staker'))
      × NoneBefore 7 1 (rounds_of 1000 1 staker) proofs
      × IsStaker 7 (min (1 + rounds_of 1000 1 staker) 85) staker'
      × (staker'.untried_timestamp ≡ max_timestamp 1001 1 1000)
      × (staker'.head_block ≡ genesis_hash)
      × (staker'.staking_keys ≡ keys))
    ⊎ ((j : ℕ) × (proof : HashDigest) × (keypair : WalletKeypair) × (staker' : Staker) × (j
          < rounds_of 1000 1 staker)
        × NoneBefore 7 1 j proofs
        × FirstBelow (height_value 7 (min (1 + j) 85)) proofs proof keypair
        × (stake_interval 1000 1 staker ≡ (
          Run.◌>>=◌
              (make_template genesis_hash ((1001 + j) % 2 ^ 64) proof keypair)
              (λ template. ok (some template)),
          staker',
        ))
        × IsRaised 7 1 j staker staker')
stake_interval_lem_example =
    stake_interval_lem 7 1 1000 1 staker proofs staker-IsStaker early proofs_made proofs-AreDigests
