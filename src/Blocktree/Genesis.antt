-- ===== src/Blocktree/Genesis.antt =====
-- `make_genesis_block_diff` of blocktree.rs: the balances that a genesis block gives out.
use ironcoin.Base.{ℕ, ◌+◌, ◌%◌, ◌^◌, none, some, List, [], ◌∷◌}
use ironcoin.Base.Map.{Map, lookup, insert}
use ironcoin.Base.Run.{Run, ok, err, ◌>>=◌, ◌>>◌, IroncError}
use ironcoin.Block.{get_block, verify}
use ironcoin.Crypto.PublicKey
use ironcoin.Crypto.PublicKey.{PublicKey, public_key_eq, public_key_beq}
use ironcoin.External.{Sodium}
use ironcoin.Message.Codecs.{Codecs}
use ironcoin.Message.Ledger.{
  BalancePatch, BlockWithDiff, HashedBlock, Transaction, Transfer, empty_block_with_diff, get_bytes,
  get_num, get_transfers, new_balance, new_patch,
}

-- The loop that makes the patches.
unfoldable pub genesis_patches : Map PublicKey ℕ → List BalancePatch
genesis_patches [] = []
genesis_patches ((address, tokens) ∷ cache) =
    new_patch address.bytes (new_balance 0 0) (new_balance tokens 0) ∷ genesis_patches cache

-- What the entry of one destination becomes; the sum wraps around.
unfoldable pub add_tokens : PublicKey → ℕ → Map PublicKey ℕ → Map PublicKey ℕ
unfolding public_key_beq
add_tokens destination tokens cache = elim (lookup destination cache) [
  | some old ↦ insert destination ((old + tokens) % 2 ^ 64) cache
  | none ↦ insert destination tokens cache
]

module _ ⦃sodium : Sodium⦄ where
  -- The loop over the transfers.
  unfoldable pub collect_tokens : Map PublicKey ℕ → List Transfer → Run (Map PublicKey ℕ)
  unfolding PublicKey.from_slice add_tokens
  collect_tokens cache [] = ok cache
  collect_tokens cache (transfer ∷ transfers) = do
    destination ← PublicKey.from_slice (get_bytes transfer.destination_pk)
    collect_tokens (add_tokens destination (get_num transfer.tokens) cache) transfers

  unfoldable pub genesis_diff : HashedBlock → List Transaction → Run BlockWithDiff
  unfolding collect_tokens genesis_patches
  genesis_diff genesis [] = ok empty_block_with_diff
  genesis_diff genesis (tx ∷ []) = do
    cache ← collect_tokens [] (get_transfers tx)
    ok (record { hashed_block = some genesis; diff = genesis_patches cache })
  genesis_diff genesis _ = err IroncError.genesis_transactions

  module _ ⦃codecs : Codecs⦄ where
    unfoldable pub make_genesis_block_diff : HashedBlock → Run BlockWithDiff
    unfolding verify genesis_diff get_block
    make_genesis_block_diff genesis = do
      verify genesis
      genesis_diff genesis (get_block genesis).transactions
