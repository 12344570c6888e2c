-- ===== src/Service/Sync.antt =====
-- How service.rs follows its peers: `on_peer_blocktree_update` and `on_received_peer_blocks`.
use ironcoin.Base.{
  ℕ, ◌-◌, Bool, true, false, Option, none, some, List, [], ◌∷◌, ◌++◌, Bytes, nat_eq, ◌==◌, ltb, leb,
  if◌then◌else◌,
}
use ironcoin.Base.Run
use ironcoin.Base.Run.{Run, ok, err, panic}
use ironcoin.Base.Action.{Action, lift, pure, reads, ◌>>=◌, ◌>>◌}
use ironcoin.Block.{decode_hash, get_height}
use ironcoin.Blocktree.Keys.{get_block, get_head}
use ironcoin.Blocktree.Store as Tree
use ironcoin.Crypto.HashDigest
use ironcoin.Crypto.HashDigest.{HashDigest}
use ironcoin.External.{Base64, Sodium}
use ironcoin.Message.Codecs.{Codecs}
use ironcoin.Message.Ledger.{HashedBlock, get_num}
use ironcoin.Message.Rpc.{GetBlocksResponse, GetBlocktreeResponse, RpcRequest}
use ironcoin.Service.Requests.{wrap_get_blocks_request, wrap_get_blocktree_request}
use ironcoin.Store.{KeyValueStore}

-- The requests that `on_peer_blocktree_update` makes.
unfoldable pub ask_earlier : ℕ → RpcRequest
unfolding wrap_get_blocktree_request
ask_earlier start_height =
    wrap_get_blocktree_request
      (record { start_height = some (if ltb start_height 20 then 0 else start_height - 20) })

unfoldable pub ask_blocks : List Bytes → RpcRequest
unfolding wrap_get_blocks_request
ask_blocks missing_blocks = wrap_get_blocks_request (record { blocks = missing_blocks })

module _ {S : Type 0} (kv : KeyValueStore S) ⦃sodium : Sodium⦄ ⦃base64 : Base64⦄
    ⦃codecs : Codecs⦄ where
  -- The loop over the ancestors, with the flag `oldest_block` and the blocks that are missing.
  unfoldable pub find_missing : S → ℕ → Bool → List Bytes → List Bytes → Run (Option RpcRequest)
  unfolding HashDigest.from_slice get_block ask_earlier ask_blocks
  find_missing s start_height oldest_block missing_blocks [] = ok (some (ask_blocks missing_blocks))
  find_missing s start_height oldest_block missing_blocks (hash_bytes ∷ rest) =
      elim (HashDigest.from_slice hash_bytes) [
        | err _ ↦ ok none
        | panic p ↦ panic p
        | ok ancestor_hash ↦ Run.◌>>=◌ (get_block kv ancestor_hash s) (λ found. elim found [
          | some _ ↦ find_missing s start_height false missing_blocks rest
          | none ↦ elim oldest_block [
            | true ↦ ok (if start_height == 0 then none else some (ask_earlier start_height))
            | false ↦ find_missing s start_height false (missing_blocks ++ hash_bytes ∷ []) rest
          ]
        ])
      ]

  unfoldable pub on_peer_blocktree_update : GetBlocktreeResponse → S → Run (Option RpcRequest)
  unfolding get_head get_height find_missing
  on_peer_blocktree_update response s = Run.◌>>=◌ (get_head kv s) (λ head.
      if leb (get_num response.head_height) (get_height head)
      then ok none
      else elim response.ancestors [
        | [] ↦ ok none
        | hash_bytes ∷ rest ↦
            find_missing s (get_num response.start_height) true [] (hash_bytes ∷ rest)
      ])

  -- The loop of `on_received_peer_blocks`, which returns the highest block.
  unfoldable pub insert_blocks : HashedBlock → List HashedBlock → Action S HashedBlock
  unfolding get_height Tree.insert_block
  insert_blocks new_head [] = pure new_head
  insert_blocks new_head (block ∷ blocks) = do
    Tree.insert_block kv block
    insert_blocks (if ltb (get_height new_head) (get_height block) then block else new_head) blocks

  unfoldable pub on_received_peer_blocks : GetBlocksResponse → Action S (Option RpcRequest)
  unfolding get_head insert_blocks decode_hash Tree.set_head
  on_received_peer_blocks response = do
    head ← reads (get_head kv)
    new_head ← insert_blocks head response.blocks
    new_head_hash ← lift (decode_hash new_head)
    Tree.set_head kv new_head_hash
    pure none
