-- ===== src/Tx.antt =====
-- tx.rs: the signatures of a transaction, and the builder that makes a signed one.
pub mod Signed
pub mod Built
use ironcoin.Base.{
  Option, none, some, List, [], ◌∷◌, ◌++◌, Bytes, ℕ, list_eq, nat_eq, if◌then◌else◌,
}
use ironcoin.Base.Map.{Map, lookup, insert}
use ironcoin.Base.Run.{Run, ok, err, panic, for_all, unwrap, ◌>>=◌, ◌>>◌, IroncError}
use ironcoin.Crypto.PublicKey
use ironcoin.Crypto.PublicKey.{PublicKey}
use ironcoin.Crypto.SecretKey.{SecretKey}
use ironcoin.Crypto.Signature
use ironcoin.Crypto.Signature.{Signature}
use ironcoin.Crypto.Sign.{sign, verify_signature}
use ironcoin.External.{Sodium}
use ironcoin.Message.Codecs.{Codecs}
use ironcoin.Message.Ledger.{
  Commitment, DetachedSignature, Transaction, Transfer, empty_commitment, get_bytes, get_commit,
  get_transfers,
}

-- The loop that fills `sign_map`; a later signature for a key replaces an earlier one.
unfoldable pub fill_sign_map : Map Bytes Bytes → List DetachedSignature → Map Bytes Bytes
fill_sign_map sign_map [] = sign_map
fill_sign_map sign_map (signature ∷ signatures) =
    fill_sign_map (insert (get_bytes signature.public_key) (get_bytes signature.payload) sign_map)
      signatures

-- `TransactionBuilder`
pub record TransactionBuilder : Type 0 where
  pub transfer_secret_keys : List SecretKey
  pub bounty_secret_key : Option SecretKey
  pub commit : Commitment

unfoldable pub new : TransactionBuilder
new = record { transfer_secret_keys = []; bounty_secret_key = none; commit = empty_commitment }

unfoldable pub add_transfer :
    SecretKey → PublicKey → PublicKey → ℕ → ℕ → TransactionBuilder → TransactionBuilder
add_transfer sk source destination tokens op_index builder =
    let transfer : Transfer = record {
      op_index = some op_index;
      tokens = some tokens;
      source_pk = some source.bytes;
      destination_pk = some destination.bytes;
    } in
    record builder {
      transfer_secret_keys = builder.transfer_secret_keys ++ sk ∷ [];
      commit = record (builder.commit) { transfers = builder.commit.transfers ++ transfer ∷ [] };
    }

-- `mut_bounty_pk().push_all(…)` adds to the bytes that are there.
unfoldable pub set_bounty : SecretKey → PublicKey → ℕ → TransactionBuilder → TransactionBuilder
set_bounty sk source bounty builder = record builder {
  bounty_secret_key = some sk;
  commit = record (builder.commit) {
    bounty_pk = some (get_bytes builder.commit.bounty_pk ++ source.bytes);
    bounty = some bounty;
  };
}

module _ ⦃sodium : Sodium⦄ where
  -- The body of the loop of `verify_signatures`.
  unfoldable pub verify_transfer : Bytes → Map Bytes Bytes → Transfer → Run (Unit {0})
  unfolding PublicKey.from_slice Signature.from_slice verify_signature
  verify_transfer commit_bytes sign_map transfer =
      elim (lookup (get_bytes transfer.source_pk) sign_map) [
        | some sign_bytes ↦ do
          public_key ← PublicKey.from_slice (get_bytes transfer.source_pk)
          signature ← Signature.from_slice sign_bytes
          verify_signature public_key commit_bytes signature
        | none ↦ err IroncError.missing_key
      ]

  -- The loop of `build`, over the transfers and their keys.
  unfoldable pub sign_transfers :
      Bytes → List Transfer → List SecretKey → Run (List DetachedSignature)
  unfolding PublicKey.from_slice sign verify_signature
  sign_transfers commit_bytes (transfer ∷ transfers) (secret_key ∷ secret_keys) = do
    let signature : Signature = sign secret_key commit_bytes
    pk ← PublicKey.from_slice (get_bytes transfer.source_pk)
    elim (verify_signature pk commit_bytes signature) [
      | ok _ ↦ ok tt
      | err _ ↦ err IroncError.invalid_source_key
      | panic p ↦ panic p
    ]
    rest ← sign_transfers commit_bytes transfers secret_keys
    ok (record { public_key = some pk.bytes; payload = some signature.bytes } ∷ rest)
  sign_transfers commit_bytes _ _ = ok []

  module _ ⦃codecs : Codecs⦄ where
    unfoldable pub verify_signatures : Transaction → Run (Unit {0})
    unfolding for_all verify_transfer fill_sign_map
    verify_signatures tx = do
      commit_bytes ← codecs.commitment.write_to_bytes (get_commit tx)
      for_all (verify_transfer commit_bytes (fill_sign_map [] tx.signatures)) (get_transfers tx)

    unfoldable pub build : TransactionBuilder → Run Transaction
    unfolding sign_transfers verify_signatures
    build builder = do
      commit_bytes ← unwrap (codecs.commitment.write_to_bytes builder.commit)
      signatures ← sign_transfers commit_bytes builder.commit.transfers builder.transfer_secret_keys
      let transaction : Transaction = record {
        signatures = signatures;
        commit = some builder.commit;
      }
      verify_signatures transaction
      ok transaction
