-- ===== src/Block.antt =====
-- block.rs: what a block's hash, signature and links are, how it is verified, and the genesis
-- block with its builder. The time and the random key pair of the genesis are arguments.
pub mod Verify
pub mod Founding
use ironcoin.Base.{
  Option, none, some, List, [], ◌∷◌, ◌++◌, Bytes, Bool, true, false, not, ◌||◌, ℕ, nat_eq, ◌==◌,
  ◌+◌, ◌%◌, ◌^◌, if◌then◌else◌,
}
use ironcoin.Base.Run.{Run, ok, err, panic, for_all, guard, unwrap, ◌>>=◌, ◌>>◌, IroncError, Panic}
use ironcoin.Crypto.HashDigest
use ironcoin.Crypto.HashDigest.{HashDigest, digest_beq}
use ironcoin.Crypto.PublicKey
use ironcoin.Crypto.PublicKey.{PublicKey}
use ironcoin.Crypto.SecretKey.{SecretKey}
use ironcoin.Crypto.Signature
use ironcoin.Crypto.Signature.{Signature}
use ironcoin.Crypto.Sign.{hash_message, sign_message, verify_signed_message}
use ironcoin.External.{Sodium}
use ironcoin.Message.Codecs.{Codecs}
use ironcoin.Message.Ledger.{
  Block, HashedBlock, SignedBlock, Transaction, BlockWithDiff, get_bytes, get_commit,
  get_hashed_block, get_inner_block, get_num, get_signed_block,
}
use ironcoin.Tx
use ironcoin.Tx.{TransactionBuilder, verify_signatures}

-- `HashedBlockExt::get_block`
unfoldable pub get_block : HashedBlock → Block
get_block block = get_inner_block (get_signed_block block)

unfoldable pub get_height : HashedBlock → ℕ
unfolding get_block
get_height block = get_num (get_block block).height

unfoldable pub set_previous_block : HashDigest → HashedBlock → HashedBlock
unfolding get_block
set_previous_block block_hash block = record block {
  signed_block = some (record (get_signed_block block) {
    block = some (record (get_block block) { previous = some block_hash.bytes });
  });
}

-- `BlockWithDiffExt::get_height`
unfoldable pub get_diff_height : BlockWithDiff → ℕ
unfolding get_height
get_diff_height block_diff = get_height (get_hashed_block block_diff)

-- The transfers that a genesis block is built from.
abbrev pub GenesisBuilder : Type 0
GenesisBuilder = List (PublicKey × ℕ)

-- `GenesisBuilder::add_transfer`
unfoldable pub add_genesis_transfer : PublicKey → ℕ → GenesisBuilder → GenesisBuilder
add_genesis_transfer destination tokens transfers = transfers ++ (destination, tokens) ∷ []

-- The loop of `GenesisBuilder::build`.
unfoldable pub add_genesis_transfers :
    PublicKey → SecretKey → ℕ → GenesisBuilder → TransactionBuilder → TransactionBuilder
unfolding Tx.add_transfer
add_genesis_transfers public_key secret_key op_num [] tx_builder = tx_builder
add_genesis_transfers public_key secret_key op_num ((destination, tokens) ∷ transfers) tx_builder =
    add_genesis_transfers public_key secret_key ((op_num + 1) % 2 ^ 32) transfers
      (Tx.add_transfer secret_key public_key destination tokens op_num tx_builder)

module _ ⦃sodium : Sodium⦄ where
  -- `decode_hash`, `decode_previous`, `decode_proof` and `decode_staker_pk`.
  unfoldable pub decode_hash : HashedBlock → Run HashDigest
  unfolding HashDigest.from_slice
  decode_hash block = HashDigest.from_slice (get_bytes block.hash)

  unfoldable pub decode_previous : HashedBlock → Run HashDigest
  unfolding HashDigest.from_slice get_block
  decode_previous block = HashDigest.from_slice (get_bytes (get_block block).previous)

  unfoldable pub decode_proof : HashedBlock → Run HashDigest
  unfolding decode_previous
  decode_proof block = decode_previous block

  unfoldable pub decode_staker_pk : HashedBlock → Run PublicKey
  unfolding PublicKey.from_slice get_block
  decode_staker_pk block = PublicKey.from_slice (get_bytes (get_block block).staker_pk)

  -- `BlockWithDiffExt`
  unfoldable pub decode_diff_hash : BlockWithDiff → Run HashDigest
  unfolding decode_hash
  decode_diff_hash block_diff = decode_hash (get_hashed_block block_diff)

  unfoldable pub decode_diff_previous : BlockWithDiff → Run HashDigest
  unfolding decode_previous
  decode_diff_previous block_diff = decode_previous (get_hashed_block block_diff)

  module _ ⦃codecs : Codecs⦄ where
    unfoldable pub compute_hash : HashedBlock → Run (HashDigest × HashedBlock)
    unfolding hash_message
    compute_hash block = do
      hash_digest ← hash_message codecs.signed_block (get_signed_block block)
      ok (hash_digest, record block { hash = some hash_digest.bytes })

    unfoldable pub verify_hash : HashedBlock → Run (Unit {0})
    unfolding HashDigest.from_slice decode_previous hash_message digest_beq
    verify_hash block = do
      block_hash ← HashDigest.from_slice (get_bytes block.hash)
      _ ← decode_previous block
      computed_hash ← hash_message codecs.signed_block (get_signed_block block)
      guard (digest_beq computed_hash block_hash)
          (IroncError.invalid_hash block_hash.bytes computed_hash.bytes)

    -- `SignedBlockExt`
    unfoldable pub sign_block : SecretKey → SignedBlock → Run SignedBlock
    unfolding sign_message
    sign_block secret_key signed_block = do
      signature ← sign_message codecs.block secret_key (get_inner_block signed_block)
      ok (record signed_block { signature = some signature.bytes })

    unfoldable pub verify_block_signature : SignedBlock → Run (Unit {0})
    unfolding PublicKey.from_slice Signature.from_slice verify_signed_message
    verify_block_signature signed_block = do
      public_key ← PublicKey.from_slice (get_bytes (get_inner_block signed_block).staker_pk)
      signature ← Signature.from_slice (get_bytes signed_block.signature)
      verify_signed_message codecs.block public_key (get_inner_block signed_block) signature

    unfoldable pub verify : HashedBlock → Run (Unit {0})
    unfolding verify_hash verify_block_signature get_block for_all
    verify block = do
      verify_hash block
      verify_block_signature (get_signed_block block)
      for_all verify_signatures (get_block block).transactions

    unfoldable pub create_genesis_block : ℕ → PublicKey → SecretKey → Transaction → Run HashedBlock
    create_genesis_block now staker_pk staker_sk tx = do
      let commit = get_commit tx
      guard
          (not (
            not (get_num commit.bounty == 0)
            || elim commit.bounty_pk [ some _ ↦ true | none ↦ false ]))
          IroncError.bounty_in_genesis
      verify_signatures tx
      zero_digest ← HashDigest.from_u64 0
      signed_block ← sign_block staker_sk (record {
        signature = none;
        block = some (record {
          staker_pk = some staker_pk.bytes;
          previous = some zero_digest.bytes;
          timestamp = some now;
          height = some 0;
          target_hash = none;
          transactions = tx ∷ [];
        });
      })
      (_, genesis) ← compute_hash (record { hash = none; signed_block = some signed_block })
      ok genesis

    -- `GenesisBuilder::build`; `gen_keypair` and the clock give the first three arguments.
    unfoldable pub build : PublicKey → SecretKey → ℕ → GenesisBuilder → Run HashedBlock
    unfolding add_genesis_transfers Tx.new Tx.build
    build public_key secret_key now transfers = do
      genesis_tx ←
          unwrap (Tx.build (add_genesis_transfers public_key secret_key 0 transfers Tx.new))
      elim (verify_signatures genesis_tx) [
        | ok _ ↦ ok tt
        | err _ ↦ panic Panic.signatures_asserted
        | panic p ↦ panic p
      ]
      unwrap (create_genesis_block now public_key secret_key genesis_tx)
