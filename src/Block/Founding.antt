-- ===== src/Block/Founding.antt =====
-- The genesis block that `GenesisBuilder::build` of block.rs makes.
use ironcoin.Base.{
  ℕ, ◌+◌, ◌%◌, ◌^◌, ◌≡◌, refl, ◌∙◌, ap, some, none, List, [], ◌∷◌, ◌++◌, length, replicate, arith,
  nat_beq_iff,
}
use mathlib.Core.List.{append-nil, append_assoc}
use ironcoin.Base.Run.{ok, unwrap}
use ironcoin.Balance.Transfer.{from_slice-eq}
use ironcoin.Block
use ironcoin.Block.{
  GenesisBuilder, add_genesis_transfers, create_genesis_block, decode_hash, get_block, get_height,
  sign_block, verify, verify_block_signature,
}
use ironcoin.Block.Verify.{compute_hash-verify_hash}
use ironcoin.Crypto.HashDigest.{HashDigest}
use ironcoin.Crypto.PublicKey.{PublicKey}
use ironcoin.Crypto.SecretKey.{SecretKey}
use ironcoin.Crypto.Sizes.{from_slice-bytes}
use ironcoin.Crypto.Value.{from_u64-value}
use ironcoin.External.{HasSizes, IsFaithful, Sodium}
use ironcoin.Message.Codecs.{Codecs}
use ironcoin.Message.Ledger as Message
use ironcoin.Crypto.Signature
use ironcoin.Crypto.Sign.{sign, sign_message, verify_signature, verify_signed_message}
use ironcoin.Message.Ledger.{
  HashedBlock, Transaction, Transfer, empty_commitment, get_commit, get_transfers, SignedBlock,
  get_inner_block, get_bytes, get_signed_block, get_num,
}
use ironcoin.Tx
use ironcoin.Tx.{TransactionBuilder, verify_signatures}
use ironcoin.Tx.Built.{HasKeys, IsPair, build-verify_signatures}

-- The transfers of a genesis block: numbered from the first on, all from one source.
abbrev pub gifts : PublicKey → ℕ → GenesisBuilder → List Transfer
gifts source op_num [] = []
gifts source op_num ((destination, tokens) ∷ transfers) =
    record {
      op_index = some op_num;
      tokens = some tokens;
      source_pk = some source.bytes;
      destination_pk = some destination.bytes;
    }
    ∷ gifts source ((op_num + 1) % 2 ^ 32) transfers

add_genesis_transfers-gifts :
    (source : PublicKey) (sk : SecretKey) (op_num : ℕ) (transfers : GenesisBuilder)
    (builder : TransactionBuilder)
    → add_genesis_transfers source sk op_num transfers builder ≡ record builder {
      transfer_secret_keys = builder.transfer_secret_keys ++ replicate (length transfers) sk;
      commit = record (builder.commit) {
        transfers = builder.commit.transfers ++ gifts source op_num transfers;
      };
    }
unfolding add_genesis_transfers Tx.add_transfer
add_genesis_transfers-gifts source sk op_num [] builder =
    rw (append-nil builder.transfer_secret_keys, append-nil builder.commit.transfers) refl
add_genesis_transfers-gifts source sk op_num ((destination, tokens) ∷ transfers) builder =
    add_genesis_transfers-gifts source sk ((op_num + 1) % 2 ^ 32) transfers
      (Tx.add_transfer sk source destination tokens op_num builder)
    ∙ simp append_assoc

module _ ⦃sodium : Sodium⦄ where
  gifts-HasKeys :
      (source : PublicKey) (sk : SecretKey) (op_num : ℕ) (transfers : GenesisBuilder)
      → IsPair sk source
      → HasKeys (gifts source op_num transfers) (replicate (length transfers) sk)
  gifts-HasKeys source sk op_num [] pair = tt
  gifts-HasKeys source sk op_num ((destination, tokens) ∷ transfers) pair = (
    record { source = source; named = refl; pair = pair },
    gifts-HasKeys source sk ((op_num + 1) % 2 ^ 32) transfers pair,
  )

  module _ ⦃codecs : Codecs⦄ (sizes : HasSizes sodium) (blocks : IsFaithful codecs.block)
      (signed_blocks : IsFaithful codecs.signed_block)
      (commitments : IsFaithful codecs.commitment) where
    -- A genesis block of one transaction with the given transfers.
    pub record IsGenesis (source : PublicKey) (transfers : GenesisBuilder) (block : HashedBlock)
        : Type 0 where
      pub hash : HashDigest
      pub named : decode_hash block ≡ ok hash
      pub verified : verify block ≡ ok tt
      pub tx : Transaction
      pub single : (get_block block).transactions ≡ tx ∷ []
      pub given : get_transfers tx ≡ gifts source 0 transfers
      pub lowest : get_height block ≡ 0

    sign_block-ok :
        (sk : SecretKey) (signed_block : SignedBlock)
        → sign_block sk signed_block
          ≡ ok (record signed_block {
            signature =
                some (sodium.sign_detached (blocks.encode (get_inner_block signed_block)) sk.bytes);
          })
    unfolding sign_block sign_message sign
    sign_block-ok sk signed_block = rw (blocks.write-eq (get_inner_block signed_block)) refl

    verify_block_signature-signed :
        (sk : SecretKey) (pk : PublicKey) (block : Message.Block)
        → IsPair sk pk
        → block.staker_pk ≡ some pk.bytes
        → verify_block_signature (record {
          signature = some (sodium.sign_detached (blocks.encode block) sk.bytes);
          block = some block;
        })
          ≡ ok tt
    unfolding verify_block_signature verify_signed_message verify_signature Signature.from_slice
    verify_block_signature-signed sk pk block pair staker =
        rw
          (
            from_slice-eq (get_bytes block.staker_pk) pk (ap get_bytes staker) pair.sized,
            (nat_beq_iff (length (sodium.sign_detached (blocks.encode block) sk.bytes))
                  sodium.signature_bytes).1
                (sizes.length-sign (blocks.encode block) sk.bytes),
            blocks.write-eq block,
            pair.accepts (blocks.encode block),
          )
          refl

    create_genesis_block-IsGenesis :
        (now : ℕ) (pk : PublicKey) (sk : SecretKey) (tx : Transaction) (transfers : GenesisBuilder)
        → IsPair sk pk
        → tx.commit ≡ some (record empty_commitment { transfers = gifts pk 0 transfers })
        → verify_signatures tx ≡ ok tt
        → (block : HashedBlock) × (create_genesis_block now pk sk tx ≡ ok block)
          × IsGenesis pk transfers block
    unfolding create_genesis_block verify get_block get_height
    create_genesis_block-IsGenesis now pk sk tx transfers pair commit signed =
        let (origin, done, _, _, sized) = from_u64-value 0 (omega arith) sizes.digest_room in
        let inner : Message.Block = record {
          staker_pk = some pk.bytes;
          previous = some origin.bytes;
          timestamp = some now;
          height = some 0;
          target_hash = none;
          transactions = tx ∷ [];
        } in
        let signed_block : SignedBlock = record {
          signature = some (sodium.sign_detached (blocks.encode inner) sk.bytes);
          block = some inner;
        } in
        let (h, hashed, e, named, same, checked) =
          compute_hash-verify_hash sizes (record { hash = none; signed_block = some signed_block })
            origin (signed_blocks.encode signed_block) (from_slice-bytes origin sized)
            (signed_blocks.write-eq signed_block) in
        let transactions : (get_block hashed).transactions ≡ tx ∷ [] =
          ap (λ (b : SignedBlock). (get_inner_block b).transactions) same in
        (
          hashed,
          simp commit (
              rw
                (
                  signed,
                  done,
                  sign_block-ok sk (record { signature = none; block = some inner }),
                  e,
                )
                refl),
          record {
            hash = h;
            named = named;
            verified =
                rw (checked, same, verify_block_signature-signed sk pk inner pair refl, signed)
                  refl;
            tx = tx;
            single = transactions;
            given = rw commit refl;
            lowest = ap (λ (b : SignedBlock). get_num (get_inner_block b).height) same;
          },
        )

    pub build-IsGenesis :
        (pk : PublicKey) (sk : SecretKey) (now : ℕ) (transfers : GenesisBuilder)
        → IsPair sk pk
        → (block : HashedBlock) × (Block.build pk sk now transfers ≡ ok block)
          × IsGenesis pk transfers block
    unfolding Block.build Tx.new
    build-IsGenesis pk sk now transfers pair =
        let built = add_genesis_transfers pk sk 0 transfers Tx.new in
        let shape = add_genesis_transfers-gifts pk sk 0 transfers Tx.new in
        let (tx, e, commit, signed) =
          build-verify_signatures sizes built _ (commitments.write-eq built.commit)
            (rw shape (gifts-HasKeys pk sk 0 transfers pair)) in
        let (block, e', genesis) =
          create_genesis_block-IsGenesis now pk sk tx transfers pair (commit ∙ rw shape refl)
            signed in
        (block, rw (e, unwrap, signed, e') refl, genesis)
