-- ===== src/Service/Answers.antt =====
-- The requests of service.rs that only read: `get_blocks`, `get_blocktree` and `pub_block`.
use ironcoin.Base.{
  ℕ, zero, suc, true, false, none, some, List, [], ◌∷◌, ◌++◌, Bytes, ltb, min, if◌then◌else◌,
}
use ironcoin.Base.Run.{Run, ok, err, panic, expect, unwrap, ◌>>=◌, IroncError, Panic}
use ironcoin.Block.{decode_previous, get_height, verify_hash}
use ironcoin.Block as Block
use ironcoin.Blocktree.Keys.{get_block, get_head, get_head_hash}
use ironcoin.Crypto.HashDigest
use ironcoin.Crypto.HashDigest.{HashDigest, digest_beq}
use ironcoin.External.{Base64, Sodium}
use ironcoin.Message.Codecs.{Codecs}
use ironcoin.Message.Ledger.{HashedBlock, get_bytes, get_num}
use ironcoin.Message.Rpc.{
  BlocksStatus, GetBlocksRequest, GetBlocksResponse, GetBlocktreeRequest, GetBlocktreeResponse,
  PubBlockRequest, PubStatus, BlocktreeStatus,
}
use ironcoin.Store.{KeyValueStore}

abbrev pub failed_blocks : BlocksStatus → IroncError → GetBlocksResponse
failed_blocks status e = record { status = status; description = some e; blocks = [] }

module _ {S : Type 0} (kv : KeyValueStore S) ⦃sodium : Sodium⦄ ⦃base64 : Base64⦄
    ⦃codecs : Codecs⦄ where
  -- The loop of `get_blocks`, with the blocks that it has found.
  unfoldable pub collect_blocks : S → List HashedBlock → List Bytes → Run GetBlocksResponse
  unfolding HashDigest.from_slice get_block
  collect_blocks s blocks [] =
      ok (record { status = BlocksStatus.ok; description = none; blocks = blocks })
  collect_blocks s blocks (hash_bytes ∷ rest) = elim (HashDigest.from_slice hash_bytes) [
    | err e ↦ ok (failed_blocks BlocksStatus.invalid_hash e)
    | panic p ↦ panic p
    | ok block_hash ↦ get_block kv block_hash s >>= (λ found. elim found [
      | none ↦
          ok (failed_blocks BlocksStatus.unknown_block (IroncError.unknown_block block_hash.bytes))
      | some block ↦ collect_blocks s (blocks ++ block ∷ []) rest
    ])
  ]

  unfoldable pub get_blocks : GetBlocksRequest → S → Run GetBlocksResponse
  unfolding collect_blocks
  get_blocks request s = collect_blocks s [] request.blocks

  -- The loop of `get_blocktree`; `ancestors` is built in the order of the reversed vector.
  unfoldable pub collect_ancestors : ℕ → ℕ → HashedBlock → List Bytes → S → Run (List Bytes)
  unfolding get_height decode_previous get_block
  collect_ancestors zero start block_pointer ancestors s = panic Panic.fuel_exhausted
  collect_ancestors (suc fuel) start block_pointer ancestors s =
      elim (ltb start (get_height block_pointer)) [
        | false ↦ ok ancestors
        | true ↦ decode_previous block_pointer >>= (λ previous.
            get_block kv previous s >>= (λ found. expect found Panic.unwrapped_none >>= (λ block.
              collect_ancestors fuel start block (get_bytes block.hash ∷ ancestors) s)))
      ]

  unfoldable pub get_blocktree : GetBlocktreeRequest → S → Run GetBlocktreeResponse
  unfolding get_head get_height collect_ancestors
  get_blocktree request s = do
    head ← get_head kv s
    let start = get_num request.start_height
    ancestors ←
        (if ltb (get_height head) start
          then ok []
          else collect_ancestors (suc (get_height head)) start head (get_bytes head.hash ∷ []) s)
    ok (record {
      status = BlocktreeStatus.ok;
      description = none;
      head = some (get_bytes head.hash);
      head_height = some (get_height head);
      start_height = some (min start (get_height head));
      ancestors = ancestors;
    })

  -- `pub_block` answers, and keeps nothing of the block.
  unfoldable pub pub_block : PubBlockRequest → S → Run PubStatus
  unfolding verify_hash HashDigest.from_slice get_head_hash digest_beq Block.get_block
  pub_block request s = elim request.block [
    | none ↦ ok PubStatus.invalid_request
    | some hashed_block ↦ elim (verify_hash hashed_block) [
      | err _ ↦ ok PubStatus.invalid_block
      | panic p ↦ panic p
      | ok _ ↦ unwrap (HashDigest.from_slice (get_bytes hashed_block.hash)) >>= (λ block_hash.
          get_head_hash kv s >>= (λ head_hash.
            if digest_beq block_hash head_hash
            then ok PubStatus.ok
            else elim (HashDigest.from_slice (get_bytes (Block.get_block hashed_block).previous)) [
              | ok _ ↦ ok PubStatus.ok
              | err _ ↦ ok PubStatus.invalid_block
              | panic p ↦ panic p
            ]))
    ]
  ]
