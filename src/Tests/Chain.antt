-- ===== src/Tests/Chain.antt =====
-- A genesis and a block on it, made by the model.
use ironcoin.Base.{Bytes, ◌++◌, list_beq, ◌≡◌, refl, none, some, [], ◌∷◌}
use ironcoin.Base.Run.{ok, ◌>>=◌}
use ironcoin.Block
use ironcoin.Crypto.PublicKey.{PublicKey}
use ironcoin.Crypto.SecretKey.{SecretKey}
use ironcoin.Message.Ledger.{HashedBlock, SignedBlock, Transaction, Transfer}
use ironcoin.Blocktree.Keys.{genesis_field, head_field}
use ironcoin.Blocktree.Store
use ironcoin.Crypto.HashDigest.{HashDigest}
use ironcoin.Store.{HashMapStore, hash_map_store}
use ironcoin.Tx
use ironcoin.Tests.World.{base64, codecs, sodium}

abbrev pub alice : PublicKey
alice = record { bytes = 11 ∷ [] }

abbrev pub bob : PublicKey
bob = record { bytes = 22 ∷ [] }

abbrev pub root : PublicKey
root = record { bytes = 99 ∷ [] }

abbrev pub root_key : SecretKey
root_key = record { bytes = 99 ∷ [] }

abbrev gift : Transfer
gift = record {
  op_index = some 0;
  tokens = some 50;
  source_pk = some (99 ∷ []);
  destination_pk = some (11 ∷ []);
}

abbrev pub gift_tx : Transaction
gift_tx = record {
  signatures = record { public_key = some (99 ∷ []); payload = some (99 ∷ 234 ∷ []) } ∷ [];
  commit = some (record { bounty_pk = none; bounty = none; transfers = gift ∷ [] });
}

abbrev pub genesis_hash : HashDigest
genesis_hash = record { bytes = 86 ∷ 0 ∷ 0 ∷ 0 ∷ 0 ∷ 0 ∷ 0 ∷ 0 ∷ [] }

abbrev pub genesis : HashedBlock
genesis = record {
  hash = some genesis_hash.bytes;
  signed_block = some (record {
    signature = some (99 ∷ 187 ∷ []);
    block = some (record {
      staker_pk = some (99 ∷ []);
      previous = some (0 ∷ 0 ∷ 0 ∷ 0 ∷ 0 ∷ 0 ∷ 0 ∷ 0 ∷ []);
      timestamp = some 1000;
      height = some 0;
      target_hash = none;
      transactions = gift_tx ∷ [];
    });
  });
}

-- The builder makes this block.
genesis_built : Block.build root root_key 1000 ((alice, 50) ∷ []) ≡ ok genesis
unfolding Block.build list_beq Block.create_genesis_block ironcoin.Crypto.HashDigest.from_u64
    Block.sign_block Block.compute_hash
genesis_built = refl

-- Alice pays Bob.
abbrev pub payment : Transaction
payment = record {
  signatures = record { public_key = some (11 ∷ []); payload = some (11 ∷ 82 ∷ []) } ∷ [];
  commit = some (record {
    bounty_pk = none;
    bounty = none;
    transfers =
        record {
          op_index = some 0;
          tokens = some 20;
          source_pk = some (11 ∷ []);
          destination_pk = some (22 ∷ []);
        }
        ∷ [];
  });
}

abbrev unsigned : SignedBlock
unsigned = record {
  signature = none;
  block = some (record {
    staker_pk = some (11 ∷ []);
    previous = some genesis_hash.bytes;
    timestamp = some 1001;
    height = some 1;
    target_hash = none;
    transactions = payment ∷ [];
  });
}

abbrev pub block_hash : HashDigest
block_hash = record { bytes = 200 ∷ 0 ∷ 0 ∷ 0 ∷ 0 ∷ 0 ∷ 0 ∷ 0 ∷ [] }

abbrev pub block : HashedBlock
block = record {
  hash = some block_hash.bytes;
  signed_block = some (record unsigned { signature = some (11 ∷ 175 ∷ []) });
}

block_made :
    (Block.sign_block (record { bytes = 11 ∷ [] }) unsigned
      >>= (λ b. Block.compute_hash (record { hash = none; signed_block = some b })))
    ≡ ok (block_hash, block)
unfolding Block.sign_block Block.compute_hash
block_made = refl

-- The blocks with their diffs, as they are stored.
abbrev genesis_bytes : Bytes
genesis_bytes =
    1 ∷ 1 ∷ 8 ∷ 86 ∷ 0 ∷ 0 ∷ 0 ∷ 0 ∷ 0 ∷ 0 ∷ 0 ∷ 1 ∷ 1 ∷ 2 ∷ 99 ∷ 187 ∷ 1 ∷ 1 ∷ 1 ∷ 99 ∷ 1 ∷ 8 ∷ 0
    ∷ 0 ∷ 0 ∷ 0 ∷ 0 ∷ 0 ∷ 0 ∷ 0 ∷ 1 ∷ 1000 ∷ 1 ∷ 0 ∷ 0 ∷ 1 ∷ 1 ∷ 1 ∷ 1 ∷ 99 ∷ 1 ∷ 2 ∷ 99 ∷ 234 ∷ 1
    ∷ 0 ∷ 0 ∷ 1 ∷ 1 ∷ 0 ∷ 1 ∷ 50 ∷ 1 ∷ 1 ∷ 99 ∷ 1 ∷ 1 ∷ 11 ∷ 1 ∷ 1 ∷ 1 ∷ 11 ∷ 1 ∷ 1 ∷ 0 ∷ 1 ∷ 0 ∷ 1
    ∷ 1 ∷ 50 ∷ 1 ∷ 0 ∷ []

abbrev block_bytes : Bytes
block_bytes =
    1 ∷ 1 ∷ 8 ∷ 200 ∷ 0 ∷ 0 ∷ 0 ∷ 0 ∷ 0 ∷ 0 ∷ 0 ∷ 1 ∷ 1 ∷ 2 ∷ 11 ∷ 175 ∷ 1 ∷ 1 ∷ 1 ∷ 11 ∷ 1 ∷ 8 ∷ 86
    ∷ 0 ∷ 0 ∷ 0 ∷ 0 ∷ 0 ∷ 0 ∷ 0 ∷ 1 ∷ 1001 ∷ 1 ∷ 1 ∷ 0 ∷ 1 ∷ 1 ∷ 1 ∷ 1 ∷ 11 ∷ 1 ∷ 2 ∷ 11 ∷ 82 ∷ 1
    ∷ 0 ∷ 0 ∷ 1 ∷ 1 ∷ 0 ∷ 1 ∷ 20 ∷ 1 ∷ 1 ∷ 11 ∷ 1 ∷ 1 ∷ 22 ∷ 2 ∷ 1 ∷ 1 ∷ 11 ∷ 1 ∷ 1 ∷ 50 ∷ 1 ∷ 0 ∷ 1
    ∷ 1 ∷ 30 ∷ 1 ∷ 1 ∷ 1 ∷ 1 ∷ 22 ∷ 1 ∷ 1 ∷ 0 ∷ 1 ∷ 0 ∷ 1 ∷ 1 ∷ 20 ∷ 1 ∷ 0 ∷ []

-- The store that the node starts with, after the block is inserted, and with the head moved to it.
abbrev pub started : HashMapStore
started =
    (genesis_field, genesis_hash.bytes)
    ∷ (head_field, genesis_hash.bytes)
    ∷ (98 ∷ 58 ∷ 86 ∷ 0 ∷ 0 ∷ 0 ∷ 0 ∷ 0 ∷ 0 ∷ 0 ∷ [], genesis_bytes)
    ∷ (97 ∷ 58 ∷ 11 ∷ [], 1 ∷ 50 ∷ 1 ∷ 0 ∷ [])
    ∷ []

abbrev pub extended : HashMapStore
extended = started ++ (98 ∷ 58 ∷ 200 ∷ 0 ∷ 0 ∷ 0 ∷ 0 ∷ 0 ∷ 0 ∷ 0 ∷ [], block_bytes) ∷ []

abbrev pub headed : HashMapStore
headed =
    (genesis_field, genesis_hash.bytes)
    ∷ (head_field, block_hash.bytes)
    ∷ (98 ∷ 58 ∷ 86 ∷ 0 ∷ 0 ∷ 0 ∷ 0 ∷ 0 ∷ 0 ∷ 0 ∷ [], genesis_bytes)
    ∷ (97 ∷ 58 ∷ 11 ∷ [], 1 ∷ 30 ∷ 1 ∷ 1 ∷ [])
    ∷ (98 ∷ 58 ∷ 200 ∷ 0 ∷ 0 ∷ 0 ∷ 0 ∷ 0 ∷ 0 ∷ 0 ∷ [], block_bytes)
    ∷ (97 ∷ 58 ∷ 22 ∷ [], 1 ∷ 20 ∷ 1 ∷ 0 ∷ [])
    ∷ []

pub started_run : Store.new hash_map_store (some genesis) [] ≡ (ok tt, started)
unfolding Store.new hash_map_store Tx.verify_signatures ironcoin.Blocktree.Keys.get_balance
    ironcoin.Message.Ledger.balance_beq ironcoin.Blocktree.Keys.set_balance
started_run = refl

pub extended_run : Store.insert_block hash_map_store block started ≡ (ok tt, extended)
unfolding Store.insert_block hash_map_store Tx.verify_signatures
    ironcoin.Blocktree.Keys.get_head_hash ironcoin.Blocktree.Keys.get_genesis_hash
    ironcoin.Blocktree.Keys.get_balance ironcoin.Crypto.PublicKey.public_key_beq
    ironcoin.Message.Ledger.balance_beq
extended_run = refl

pub headed_run : Store.set_head hash_map_store block_hash extended ≡ (ok tt, headed)
unfolding Store.set_head hash_map_store Block.decode_diff_hash
    ironcoin.Blocktree.Keys.get_genesis_hash Block.get_diff_height Block.decode_diff_previous
    ironcoin.Balance.Snapshot.get_balance ironcoin.Blocktree.Keys.get_balance
    ironcoin.Message.Ledger.balance_beq ironcoin.Balance.Snapshot.set_balance
    ironcoin.Crypto.PublicKey.public_key_beq ironcoin.Blocktree.Keys.set_balance
headed_run = refl

-- Back to the genesis, the first balances are there again, and Bob's is an empty one.
returned_run : Store.set_head hash_map_store genesis_hash headed ≡ (
  ok tt,
  (genesis_field, genesis_hash.bytes)
      ∷ (head_field, genesis_hash.bytes)
      ∷ (98 ∷ 58 ∷ 86 ∷ 0 ∷ 0 ∷ 0 ∷ 0 ∷ 0 ∷ 0 ∷ 0 ∷ [], genesis_bytes)
      ∷ (97 ∷ 58 ∷ 11 ∷ [], 1 ∷ 50 ∷ 1 ∷ 0 ∷ [])
      ∷ (98 ∷ 58 ∷ 200 ∷ 0 ∷ 0 ∷ 0 ∷ 0 ∷ 0 ∷ 0 ∷ 0 ∷ [], block_bytes)
      ∷ (97 ∷ 58 ∷ 22 ∷ [], 1 ∷ 0 ∷ 1 ∷ 0 ∷ [])
      ∷ [],
)
unfolding Store.set_head hash_map_store Block.decode_diff_hash
    ironcoin.Blocktree.Keys.get_genesis_hash Block.get_diff_height
    ironcoin.Balance.Snapshot.get_balance ironcoin.Blocktree.Keys.get_balance
    ironcoin.Message.Ledger.balance_beq ironcoin.Balance.Snapshot.set_balance
    ironcoin.Crypto.PublicKey.public_key_beq Block.decode_diff_previous
    ironcoin.Blocktree.Keys.set_balance
returned_run = refl
