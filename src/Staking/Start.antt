-- ===== src/Staking/Start.antt =====
-- Where a staker of staking.rs starts: a new one, and one whose head has changed.
use ironcoin.Base.{ℕ, suc, ◌+◌, ◌%◌, ◌^◌, ◌≡◌, ◌≢◌, refl, ◌∙◌, false, List, arith}
use ironcoin.Base.Run.{ok}
use ironcoin.Crypto.HashDigest.{HashDigest, digest_beq, digest_beq_iff}
use ironcoin.Crypto.Value.{from_u64-value}
use ironcoin.External.{HasSizes, Sodium}
use ironcoin.Message.Ledger.{WalletKeypair}
use ironcoin.Staking
use ironcoin.Staking.{
  BlockTemplate, Staker, find_winner, i64_key, make_template, max_timestamp, proof_hashes,
  raise_target, set_head_block, set_last_byte, stake_interval, try_seconds,
}
use ironcoin.Staking.Target.{IsStaker, set_last_byte-value}

module _ ⦃sodium : Sodium⦄ where
  -- A new staker has the target 0, and its first second is the one after the head's.
  pub new-IsStaker :
      (sizes : HasSizes sodium) (m : ℕ) (keys : List WalletKeypair) (head : HashDigest) (time : ℕ)
      → sodium.hash_bytes ≡ suc m
      → (staker : Staker) × (Staking.new keys head time ≡ ok staker)
        × IsStaker m 0 staker
        × (staker.head_block ≡ head)
        × (staker.untried_timestamp ≡ (time + 1) % 2 ^ 64)
        × (staker.staking_keys ≡ keys)
  unfolding Staking.new
  new-IsStaker sizes m keys head time e =
      let (start, done, reads, bytes, size) = from_u64-value 0 (omega arith) sizes.digest_room in
      let (step, set, step_size, step_bytes, step_reads) =
        set_last_byte-value 3 start.bytes m (size ∙ e) (omega arith) bytes reads in
      (
        record {
          head_block = head;
          target_hash = start;
          target_step = record { bytes = step };
          untried_timestamp = (time + 1) % 2 ^ 64;
          staking_keys = keys;
        },
        rw (done, set),
        record {
          target_size = size ∙ e;
          target_bytes = bytes;
          target = omega (arith, reads);
          step_size = step_size;
          step_bytes = step_bytes;
          step = step_reads;
          bound = omega arith;
        },
        refl,
        refl,
        refl,
      )

-- Another head sets the target back to one step, and the search to the second after that head.
pub set_head_block-IsStaker :
    (m k : ℕ) (staker : Staker) (head : HashDigest) (time : ℕ)
    → IsStaker m k staker
    → head ≢ staker.head_block
    → IsStaker m 1 (set_head_block head time staker)
      × ((set_head_block head time staker).untried_timestamp ≡ (time + 1) % 2 ^ 64)
      × ((set_head_block head time staker).head_block ≡ head)
unfolding set_head_block
set_head_block-IsStaker m k staker head time i apart =
    let differ : digest_beq head staker.head_block ≡ false =
      ground (arith, digest_beq_iff head staker.head_block) in
    (
      rw (differ, set_head_block)
          (record {
            target_size = i.step_size;
            target_bytes = i.step_bytes;
            target = i.step;
            step_size = i.step_size;
            step_bytes = i.step_bytes;
            step = i.step;
            bound = omega arith;
          }),
      rw (differ, set_head_block) refl,
      rw (differ, set_head_block) refl,
    )
