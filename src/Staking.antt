-- ===== src/Staking.antt =====
-- staking.rs: the search for a time at which a key of the wallet may stake a block. An `i64` is
-- its bit pattern below 2 ^ 64, and the clock is an argument.
pub mod Target
pub mod Winner
pub mod Start
pub mod Search
use ironcoin.Base.{
  ℕ, zero, suc, ◌+◌, ◌-◌, ◌%◌, ◌^◌, Bool, true, false, Option, none, some, List, [], ◌∷◌, ◌++◌,
  Bytes, replicate, ltb, leb, not, if◌then◌else◌,
}
use ironcoin.Base.Run
use ironcoin.Base.Run.{Run, ok, err, panic, unwrap, Panic, IroncError}
use ironcoin.Base.Action.{Action, pure, lift, gets, modify, ◌>>=◌, ◌>>◌}
use ironcoin.Crypto.HashDigest
use ironcoin.Crypto.HashDigest.{HashDigest, digest_beq, less, add_in_place}
use ironcoin.Crypto.PublicKey
use ironcoin.Crypto.PublicKey.{PublicKey}
use ironcoin.Crypto.SecretKey
use ironcoin.Crypto.SecretKey.{SecretKey}
use ironcoin.External.{Sodium}
use ironcoin.Message.Ledger.{WalletKeypair, get_bytes}

pub record BlockTemplate : Type 0 where
  pub proof_hash : HashDigest
  pub previous_block : HashDigest
  pub timestamp : ℕ
  pub staker_pk : PublicKey
  pub staker_sk : SecretKey

pub record Staker : Type 0 where
  pub head_block : HashDigest
  pub target_hash : HashDigest
  pub target_step : HashDigest
  pub untried_timestamp : ℕ
  pub staking_keys : List WalletKeypair

-- The order of `i64` patterns: x + 2 ^ 63 as an unsigned number.
abbrev pub i64_key : ℕ → ℕ
i64_key x = (x + 2 ^ 63) % 2 ^ 64

-- The last byte of an array, `none` where an index would be out of bounds.
unfoldable pub last_byte : Bytes → Option ℕ
last_byte [] = none
last_byte (b ∷ []) = some b
last_byte (_ ∷ b ∷ rest) = last_byte (b ∷ rest)

-- A write to the last byte.
unfoldable pub set_last_byte : ℕ → Bytes → Run Bytes
set_last_byte v [] = panic Panic.index_out_of_bounds
set_last_byte v (b ∷ []) = ok (v ∷ [])
set_last_byte v (a ∷ b ∷ rest) = Run.◌>>=◌ (set_last_byte v (b ∷ rest)) (λ tail. ok (a ∷ tail))

abbrev pub staking_interval : ℕ
staking_interval = 1

unfoldable pub set_head_block : HashDigest → ℕ → Staker → Staker
unfolding digest_beq
set_head_block head_block head_timestamp staker =
    if not (digest_beq head_block staker.head_block)
    then record staker {
      head_block = head_block;
      untried_timestamp = (head_timestamp + 1) % 2 ^ 64;
      target_hash = staker.target_step;
    }
    else staker

-- The step of the target at the end of each second, while its last byte is below 255.
unfoldable pub raise_target : Staker → Run Staker
unfolding add_in_place last_byte
raise_target staker = elim (last_byte staker.target_hash.bytes) [
  | some b ↦ ok (
      if ltb b 255
      then record staker { target_hash = add_in_place staker.target_hash staker.target_step }
      else staker)
  | none ↦ panic Panic.index_out_of_bounds
]

module _ ⦃sodium : Sodium⦄ where
  unfoldable pub compute_proof_hash : HashDigest → PublicKey → HashDigest
  unfolding HashDigest.hash
  compute_proof_hash head_block public_key = HashDigest.hash (head_block.bytes ++ public_key.bytes)

  -- `Staker::new`
  unfoldable pub new : List WalletKeypair → HashDigest → ℕ → Run Staker
  unfolding HashDigest.from_u64 set_last_byte
  new staking_keys head_block head_timestamp = Run.◌>>=◌ (HashDigest.from_u64 0) (λ start.
      Run.◌>>=◌ (set_last_byte 3 start.bytes) (λ step. ok (record {
        head_block = head_block;
        target_hash = start;
        target_step = record { bytes = step };
        untried_timestamp = (head_timestamp + 1) % 2 ^ 64;
        staking_keys = staking_keys;
      })))

  -- The proof of each key, `map` and `collect`.
  unfoldable pub proof_hashes :
      HashDigest → List WalletKeypair → Run (List (HashDigest × WalletKeypair))
  unfolding PublicKey.from_slice compute_proof_hash
  proof_hashes head_block [] = ok []
  proof_hashes head_block (keypair ∷ keypairs) =
      Run.◌>>=◌ (unwrap (PublicKey.from_slice (get_bytes keypair.public_key))) (λ public_key.
        Run.◌>>=◌ (proof_hashes head_block keypairs)
          (λ rest. ok ((compute_proof_hash head_block public_key, keypair) ∷ rest)))

  -- The inner loop: the first key whose proof is below the target.
  unfoldable pub find_winner :
      HashDigest → List (HashDigest × WalletKeypair) → Option (HashDigest × WalletKeypair)
  unfolding less
  find_winner target [] = none
  find_winner target ((proof_hash, keypair) ∷ rest) =
      if less proof_hash target then some (proof_hash, keypair) else find_winner target rest

  unfoldable pub make_template : HashDigest → ℕ → HashDigest → WalletKeypair → Run BlockTemplate
  unfolding PublicKey.from_slice SecretKey.from_slice
  make_template previous_block timestamp proof_hash keypair =
      Run.◌>>=◌ (PublicKey.from_slice (get_bytes keypair.public_key)) (λ staker_pk.
        Run.◌>>=◌ (SecretKey.from_slice (get_bytes keypair.secret_key)) (λ staker_sk. ok (record {
          proof_hash = proof_hash;
          previous_block = previous_block;
          timestamp = timestamp;
          staker_pk = staker_pk;
          staker_sk = staker_sk;
        })))

  -- The outer loop, over the seconds that are left of the interval.
  unfoldable pub try_seconds :
      ℕ → ℕ → List (HashDigest × WalletKeypair) → Action Staker (Option BlockTemplate)
  unfolding find_winner make_template raise_target
  try_seconds zero timestamp proofs staker = (ok none, staker)
  try_seconds (suc rounds) timestamp proofs staker = elim (find_winner staker.target_hash proofs) [
    | some (proof_hash, keypair) ↦ (
      Run.◌>>=◌ (make_template staker.head_block timestamp proof_hash keypair)
          (λ template. ok (some template)),
      staker,
    )
    | none ↦ elim (raise_target staker) [
      | ok raised ↦ try_seconds rounds ((timestamp + 1) % 2 ^ 64) proofs raised
      | err e ↦ (err e, staker)
      | panic p ↦ (panic p, staker)
    ]
  ]

  -- `max_timestamp`, of the clock's time and the length of the interval.
  unfoldable pub max_timestamp : ℕ → ℕ → ℕ → ℕ
  max_timestamp untried interval now =
      let a = (untried + interval) % 2 ^ 64 in
      let b = (now + 1) % 2 ^ 64 in if ltb (i64_key b) (i64_key a) then a else b

  unfoldable pub stake_interval : ℕ → ℕ → Action Staker (Option BlockTemplate)
  unfolding proof_hashes try_seconds max_timestamp
  stake_interval now interval = do
    staker ← gets (λ s. s)
    let untried = staker.untried_timestamp
    let last = max_timestamp untried interval now
    proofs ← lift (proof_hashes staker.head_block staker.staking_keys)
    found ← try_seconds (i64_key last - i64_key untried) untried proofs
    elim found [
      | some template ↦ pure (some template)
      | none ↦ modify (λ s. record s { untried_timestamp = last }) >> pure none
    ]
