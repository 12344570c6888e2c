-- ===== src/Tests/Fetches.antt =====
-- Blocks sent and asked for, over the genesis of the test chain.
use ironcoin.Base.{
  ◌<◌, ◌≡◌, refl, Bool, true, not, none, some, [], ◌∷◌, Bytes, keep, list_beq, list_eq, nat_eq,
  ◌==◌, arith,
}
use ironcoin.Base.Run.{ok}
use ironcoin.Block.{get_height}
use ironcoin.Blocktree.Keys.{get_head}
use ironcoin.Crypto.HashDigest.{HashDigest}
use ironcoin.Message.Rpc.{BlocksStatus, GetBlocktreeResponse, BlocktreeStatus}
use ironcoin.Service.Answers.{get_blocks}
use ironcoin.Service.Fetch.{IsAnswered, IsBlock, get_blocks-stored, on_peer_blocktree_update-keep}
use ironcoin.Service.Sync.{ask_blocks, on_peer_blocktree_update}
use ironcoin.Store.{hash_map_store}
use ironcoin.Tests.Chain.{block_hash, genesis, genesis_hash, started}
use ironcoin.Tests.World.{base64, codecs, sodium}

genesis-IsBlock : IsBlock hash_map_store started (genesis_hash, genesis)
unfolding ironcoin.Blocktree.Keys.get_block hash_map_store list_beq
genesis-IsBlock = record { sized = refl; stored = refl }

get_blocks-stored_example :
    get_blocks hash_map_store (record { blocks = genesis_hash.bytes ∷ [] }) started
    ≡ ok (record { status = BlocksStatus.ok; description = none; blocks = genesis ∷ [] })
get_blocks-stored_example =
    get_blocks-stored hash_map_store started ((genesis_hash, genesis) ∷ []) (genesis-IsBlock, tt)

abbrev known : Bytes → Bool
known hash_bytes = hash_bytes == genesis_hash.bytes

abbrev from_peer : GetBlocktreeResponse
from_peer = record {
  status = BlocktreeStatus.ok;
  description = none;
  head = some block_hash.bytes;
  head_height = some 1;
  start_height = some 0;
  ancestors = genesis_hash.bytes ∷ block_hash.bytes ∷ [];
}

genesis-IsAnswered : IsAnswered hash_map_store started known genesis_hash.bytes
unfolding ironcoin.Crypto.HashDigest.from_slice ironcoin.Blocktree.Keys.get_block hash_map_store
    list_beq
genesis-IsAnswered = record {
  digest = genesis_hash;
  decoded = refl;
  block = some genesis;
  read = refl;
  found = refl;
}

block-IsAnswered : IsAnswered hash_map_store started known block_hash.bytes
unfolding ironcoin.Crypto.HashDigest.from_slice ironcoin.Blocktree.Keys.get_block hash_map_store
    list_beq
block-IsAnswered = record {
  digest = block_hash;
  decoded = refl;
  block = none;
  read = refl;
  found = refl;
}

at_head : get_head hash_map_store started ≡ ok genesis
unfolding get_head hash_map_store list_beq
at_head = refl

higher : get_height genesis < 1
unfolding get_height
higher = omega arith

oldest_known : known genesis_hash.bytes ≡ true
unfolding list_beq
oldest_known = refl

on_peer_blocktree_update-keep_example :
    on_peer_blocktree_update hash_map_store from_peer started
    ≡ ok
        (some (ask_blocks (keep (λ b. not (known b)) (genesis_hash.bytes ∷ block_hash.bytes ∷ []))))
on_peer_blocktree_update-keep_example =
    on_peer_blocktree_update-keep hash_map_store started known genesis from_peer genesis_hash.bytes
      (block_hash.bytes ∷ []) at_head higher refl oldest_known
      (genesis-IsAnswered, (block-IsAnswered, tt))
