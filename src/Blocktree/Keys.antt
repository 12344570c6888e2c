-- ===== src/Blocktree/Keys.antt =====
-- The keys of the store in blocktree.rs, and the reads and writes of one entry.
use ironcoin.Base.{Option, none, some, [], ◌∷◌, Bytes}
use ironcoin.Base.Run.{Run, ok, expect, err, panic, ◌>>=◌, Panic}
use ironcoin.Base.Action
use ironcoin.Base.Action.{Action}
use ironcoin.Balance.{LedgerReader, LedgerMutator}
use ironcoin.Block.{decode_diff_hash}
use ironcoin.Crypto.HashDigest
use ironcoin.Crypto.HashDigest.{HashDigest}
use ironcoin.Crypto.PublicKey.{PublicKey}
use ironcoin.External.{Sodium, Base64}
use ironcoin.Message.Codecs.{Codecs}
use ironcoin.Message.Ledger.{Balance, BlockWithDiff, HashedBlock, get_hashed_block, new_balance}
use ironcoin.Store.{KeyValueStore, get_message, set_message}

-- `"meta:genesis"`
abbrev pub genesis_field : Bytes
genesis_field =
    b'm' ∷ b'e' ∷ b't' ∷ b'a' ∷ b':' ∷ b'g' ∷ b'e' ∷ b'n' ∷ b'e' ∷ b's' ∷ b'i' ∷ b's' ∷ []

-- `"meta:head"`
abbrev pub head_field : Bytes
head_field = b'm' ∷ b'e' ∷ b't' ∷ b'a' ∷ b':' ∷ b'h' ∷ b'e' ∷ b'a' ∷ b'd' ∷ []

module _ ⦃base64 : Base64⦄ where
  unfoldable pub format_balance_key : PublicKey → Bytes
  format_balance_key address = b'a' ∷ b':' ∷ base64.to_base64 address.bytes

  unfoldable pub format_block_key : HashDigest → Bytes
  format_block_key block_hash = b'b' ∷ b':' ∷ base64.to_base64 block_hash.bytes

-- `assert!(maybe_hash.is_ok())`, then `unwrap`.
abbrev pub assert_valid : Run HashDigest → Panic → Run HashDigest
assert_valid (ok digest) invalid = ok digest
assert_valid (err _) invalid = panic invalid
assert_valid (panic p) invalid = panic p

module _ {S : Type 0} (kv : KeyValueStore S) ⦃sodium : Sodium⦄ where
  -- A digest that has to be there and to be valid: `expect`, then `assert!`.
  unfoldable pub stored_digest : Bytes → Panic → Panic → S → Run HashDigest
  unfolding HashDigest.from_slice
  stored_digest field missing invalid s = do
    found ← kv.get_bytes s field
    raw ← expect found missing
    assert_valid (HashDigest.from_slice raw) invalid

  unfoldable pub get_head_hash : S → Run HashDigest
  unfolding stored_digest
  get_head_hash = stored_digest head_field Panic.headless Panic.invalid_head_hash

  unfoldable pub get_genesis_hash : S → Run HashDigest
  unfolding stored_digest
  get_genesis_hash = stored_digest genesis_field Panic.no_genesis_key Panic.invalid_genesis_hash

  module _ ⦃base64 : Base64⦄ ⦃codecs : Codecs⦄ where
    unfoldable pub get_block_diff : HashDigest → S → Run (Option BlockWithDiff)
    unfolding get_message format_block_key
    get_block_diff block_hash s =
        get_message kv codecs.block_with_diff s (format_block_key block_hash)

    unfoldable pub set_block_diff : BlockWithDiff → Action S (Unit {0})
    unfolding set_message format_block_key decode_diff_hash
    set_block_diff block_diff =
        Action.◌>>=◌ (Action.lift (decode_diff_hash block_diff)) (λ block_hash.
          set_message kv codecs.block_with_diff (format_block_key block_hash) block_diff)

    unfoldable pub get_block : HashDigest → S → Run (Option HashedBlock)
    unfolding get_block_diff
    get_block block_hash s = do
      found ← get_block_diff block_hash s
      ok (elim found [ none ↦ none | some block_diff ↦ some (get_hashed_block block_diff) ])

    -- `get_head` and `get_genesis`
    unfoldable pub get_head : S → Run HashedBlock
    unfolding get_head_hash get_block
    get_head s = do
      head_hash ← get_head_hash s
      found ← get_block head_hash s
      expect found Panic.head_missing

    unfoldable pub get_genesis : S → Run HashedBlock
    unfolding get_genesis_hash get_block
    get_genesis s = do
      genesis_hash ← get_genesis_hash s
      found ← get_block genesis_hash s
      expect found Panic.genesis_missing

    -- `LedgerReader` and `LedgerWriter` of the block tree.
    unfoldable pub get_balance : S → PublicKey → Run Balance
    unfolding get_message format_balance_key
    get_balance s address = do
      found ← get_message kv codecs.balance s (format_balance_key address)
      elim found [ some balance ↦ ok balance | none ↦ ok (new_balance 0 0) ]

    unfoldable pub set_balance : PublicKey → Balance → Action S (Unit {0})
    unfolding set_message format_balance_key
    set_balance address balance = set_message kv codecs.balance (format_balance_key address) balance

    abbrev pub blocktree_reader : LedgerReader S
    blocktree_reader = record { get_balance = get_balance }

    abbrev pub blocktree_ledger : LedgerMutator S
    blocktree_ledger = record {
      get_balance = λ address. Action.reads (λ s. get_balance s address);
      set_balance = set_balance;
    }
