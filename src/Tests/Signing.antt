-- ===== src/Tests/Signing.antt =====
-- The theorems on transactions and blocks, on those of the test chain.
use ironcoin.Base.{◌≡◌, refl, none, some, [], ◌∷◌, Bytes, All, list_beq, ==_refl, list_eq, nat_eq}
use ironcoin.Base.Run.{ok, err, ◌>>=◌, IroncError}
use ironcoin.Block.{get_block, compute_hash, decode_hash, decode_previous, verify, verify_hash}
use ironcoin.Block.Verify.{IsVerified, compute_hash-verify_hash, verify-IsVerified}
use ironcoin.Crypto.HashDigest.{HashDigest}
use ironcoin.Crypto.SecretKey.{SecretKey}
use ironcoin.Message.Ledger.{HashedBlock, Transaction, get_commit, get_signed_block, get_transfers}
use ironcoin.Tests.Chain.{alice, block, bob, genesis_hash, payment}
use ironcoin.Tests.Messages.{signed_block}
use ironcoin.Tests.World.{codecs, sodium, sodium-HasSizes}
use ironcoin.Tx
use ironcoin.Tx.{TransactionBuilder, verify_signatures}
use ironcoin.Tx.Built.{HasKeys, build-verify_signatures}
use ironcoin.Tx.Signed.{IsSignedBy, verify_signatures-IsSignedBy}

payment_verified : verify_signatures payment ≡ ok tt
unfolding verify_signatures list_beq
payment_verified = refl

verify_signatures-IsSignedBy_example :
    (written : Bytes) × (codecs.commitment.write_to_bytes (get_commit payment) ≡ ok written)
    × All (IsSignedBy written payment.signatures) (get_transfers payment)
verify_signatures-IsSignedBy_example = verify_signatures-IsSignedBy payment payment_verified

abbrev alice_key : SecretKey
alice_key = record { bytes = 11 ∷ [] }

abbrev builder : TransactionBuilder
builder = record {
  transfer_secret_keys = alice_key ∷ [];
  bounty_secret_key = none;
  commit = get_commit payment;
}

-- `add_transfer` makes this builder.
builder_made : Tx.add_transfer alice_key alice bob 20 0 Tx.new ≡ builder
unfolding Tx.add_transfer Tx.new
builder_made = refl

-- Two calls of `set_bounty` leave both keys in the field.
set_bounty_twice :
    (Tx.set_bounty alice_key alice 1 (Tx.set_bounty alice_key alice 1 Tx.new)).commit.bounty_pk
    ≡ some (11 ∷ 11 ∷ [])
unfolding Tx.set_bounty Tx.new
set_bounty_twice = refl

builder-HasKeys : HasKeys builder.commit.transfers builder.transfer_secret_keys
builder-HasKeys = (
  record {
    source = alice;
    named = refl;
    pair = record {
      sized = refl;
      accepts = λ message. ==_refl (sodium.sign_detached message alice_key.bytes);
    };
  },
  tt,
)

abbrev commit_bytes : Bytes
commit_bytes = 0 ∷ 0 ∷ 1 ∷ 1 ∷ 0 ∷ 1 ∷ 20 ∷ 1 ∷ 1 ∷ 11 ∷ 1 ∷ 1 ∷ 22 ∷ []

build-verify_signatures_example :
    (tx : Transaction) × (Tx.build builder ≡ ok tx)
    × (tx.commit ≡ some builder.commit)
    × (verify_signatures tx ≡ ok tt)
build-verify_signatures_example =
    build-verify_signatures sodium-HasSizes builder commit_bytes refl builder-HasKeys

block_verified : verify block ≡ ok tt
unfolding verify verify_signatures
block_verified = refl

verify-IsVerified_example : IsVerified block
verify-IsVerified_example = verify-IsVerified block block_verified

abbrev unhashed : HashedBlock
unhashed = record block { hash = none }

unhashed_previous : decode_previous unhashed ≡ ok genesis_hash
unfolding decode_previous
unhashed_previous = refl

abbrev signed_bytes : Bytes
signed_bytes = signed_block.put (get_signed_block unhashed) []

compute_hash-verify_hash_example :
    (h : HashDigest) × (hashed : HashedBlock) × (compute_hash unhashed ≡ ok (h, hashed))
    × (decode_hash hashed ≡ ok h)
    × (get_signed_block hashed ≡ get_signed_block unhashed)
    × (verify_hash hashed ≡ ok tt)
compute_hash-verify_hash_example =
    compute_hash-verify_hash sodium-HasSizes unhashed genesis_hash signed_bytes unhashed_previous
      refl

-- A block that no staker has signed, as the ones that test_blocktree_insert_and_snapshot_at of
-- blocktree.rs inserts, is refused, also with its right hash.
abbrev unstaked : HashedBlock
unstaked = record block {
  hash = none;
  signed_block =
      some
        (record { signature = none; block = some (record (get_block block) { staker_pk = none }) });
}

unstaked_refused :
    (compute_hash unstaked >>= (λ hashed. verify hashed.1)) ≡ err (IroncError.invalid_length 0 1)
unfolding compute_hash verify list_beq
unstaked_refused = refl
