-- ===== src/Blocktree/Entries.antt =====
-- The entries of blocks, of the head and of the genesis in the store of blocktree.rs: what each
-- read depends on, and that their keys differ.
use ironcoin.Base.{◌≡◌, ◌≢◌, some, list_eq, nat_eq, arith, length}
use ironcoin.Base.Run.{ok}
use ironcoin.Blocktree.Keys.{
  format_block_key, genesis_field, get_block_diff, get_genesis_hash, get_head_hash, head_field,
  stored_digest,
}
use ironcoin.Crypto.HashDigest.{HashDigest}
use ironcoin.Crypto.Sizes.{from_slice-bytes}
use ironcoin.Crypto.PublicKey.{public_key_eq}
use ironcoin.External.{Base64, Sodium}
use ironcoin.Message.Codecs.{Codecs}
use ironcoin.Message.Ledger.{BlockWithDiff}
use ironcoin.Store.{KeyValueStore, get_message}
use ironcoin.Blocktree.Laws.{HasLaws, at_key}

module _ {S : Type 0} (kv : KeyValueStore S) ⦃sodium : Sodium⦄ ⦃base64 : Base64⦄ ⦃codecs : Codecs⦄
    (laws : HasLaws kv) where
  -- Reads of the tree depend on its own keys only.
  pub get_block_diff_congr :
      (s s' : S) (h : HashDigest)
      → at_key kv laws s' (format_block_key h) ≡ at_key kv laws s (format_block_key h)
      → get_block_diff kv h s' ≡ get_block_diff kv h s
  unfolding get_block_diff get_message
  get_block_diff_congr s s' h e =
      rw (laws.store.get-eq s (format_block_key h), laws.store.get-eq s' (format_block_key h), e)

  pub get_head_hash_congr :
      (s s' : S)
      → at_key kv laws s' head_field ≡ at_key kv laws s head_field
      → get_head_hash kv s' ≡ get_head_hash kv s
  unfolding get_head_hash stored_digest
  get_head_hash_congr s s' e =
      rw (laws.store.get-eq s head_field, laws.store.get-eq s' head_field, e)

  pub get_genesis_hash_congr :
      (s s' : S)
      → at_key kv laws s' genesis_field ≡ at_key kv laws s genesis_field
      → get_genesis_hash kv s' ≡ get_genesis_hash kv s
  unfolding get_genesis_hash stored_digest
  get_genesis_hash_congr s s' e =
      rw (laws.store.get-eq s genesis_field, laws.store.get-eq s' genesis_field, e)

  -- A digest that is written at the head is read back.
  pub get_head_hash-written :
      (s : S) (h : HashDigest)
      → at_key kv laws s head_field ≡ some h.bytes
      → length h.bytes ≡ sodium.hash_bytes
      → get_head_hash kv s ≡ ok h
  unfolding get_head_hash stored_digest
  get_head_hash-written s h e sized =
      rw (laws.store.get-eq s head_field, e, from_slice-bytes h sized)

  pub get_genesis_hash-written :
      (s : S) (h : HashDigest)
      → at_key kv laws s genesis_field ≡ some h.bytes
      → length h.bytes ≡ sodium.hash_bytes
      → get_genesis_hash kv s ≡ ok h
  unfolding get_genesis_hash stored_digest
  get_genesis_hash-written s h e sized =
      rw (laws.store.get-eq s genesis_field, e, from_slice-bytes h sized)

  pub get_block_diff-written :
      (s : S) (h : HashDigest) (d : BlockWithDiff)
      → get_message kv codecs.block_with_diff s (format_block_key h) ≡ ok (some d)
      → get_block_diff kv h s ≡ ok (some d)
  unfolding get_block_diff
  get_block_diff-written s h d e = e

  pub block_key_injective : (a b : HashDigest) → format_block_key a ≡ format_block_key b → a ≡ b
  unfolding format_block_key
  block_key_injective a b e = ground (arith, laws.base64_injective a.bytes b.bytes)

  pub block-head_apart : (h : HashDigest) → format_block_key h ≢ head_field
  unfolding format_block_key
  block-head_apart h = ground arith

  pub block-genesis_apart : (h : HashDigest) → format_block_key h ≢ genesis_field
  unfolding format_block_key
  block-genesis_apart h = ground arith

  pub head-genesis_apart : head_field ≢ genesis_field
  head-genesis_apart = ground arith
