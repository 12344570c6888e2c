-- ===== src/Tests/Nodes.antt =====
-- The theorems on a service and on a node over the tree of the test genesis: blocks of a peer, a
-- staked block, and handlers that are called one after the other.
use ironcoin.Base.{refl, ap, none, some, List, [], ◌∷◌, Bytes}
use ironcoin.Base.Run.{Run, ok}
use ironcoin.Base.Action.{Action}
use ironcoin.App.Dispatch.{handle_raw_rpc_request}
use ironcoin.App.Follow.{handle_new_head_block, handle_peer_response}
use ironcoin.App.Handled.{Handles, Runs, Runs-Continues}
use ironcoin.App.Peer
use ironcoin.App.Safety.{IsAnswering, handle_raw_rpc_request-IsAnswering}
use ironcoin.App.Socket.{Nanomsg, Received}
use ironcoin.App.State.{Application}
use ironcoin.Blocktree.Reach.{Continues}
use ironcoin.Crypto.HashDigest.{HashDigest}
use ironcoin.Message.Ledger.{HashedBlock}
use ironcoin.Message.Rpc.{
  BlocksStatus, GetBlocksResponse, Method, RpcResponse, RpcStatus, SignedRpcRequest, empty_request,
  empty_response,
}
use ironcoin.Service.Heads.{make_staked_block}
use ironcoin.Service.Received
use ironcoin.Service.Incoming.{AreNew}
use ironcoin.Service.Received.{on_received_peer_blocks-IsCaughtUp}
use ironcoin.Service.Requests.{wrap_pub_transaction_request}
use ironcoin.Service.Staked
use ironcoin.Service.State.{IroncService}
use ironcoin.Service.Sync.{on_received_peer_blocks}
use ironcoin.Service.Traits.{rpc_service, sync_blocktree}
use ironcoin.Staking.{BlockTemplate}
use ironcoin.Store.{HashMapStore, hash_map_store}
use ironcoin.Tests.Chain.{alice, block, genesis_hash, payment, root, root_key, started}
use ironcoin.Tests.Stakes.{staker}
use ironcoin.Tests.Trees.{block-IsFresh, first_states, started-HasRoom, started-IsTree}
use ironcoin.Tests.Waiting.{service}
use ironcoin.Tests.Wire.{signed_rpc_request}
use ironcoin.Tests.World.{base64, codecs, hash_map-HasLaws, sodium}

abbrev sent : GetBlocksResponse
sent = record { status = BlocksStatus.ok; description = none; blocks = block ∷ [] }

block-AreNew : AreNew hash_map_store started (block ∷ [])
block-AreNew = (block-IsFresh, tt, tt)

on_received_peer_blocks-IsCaughtUp_example :
    Received.Ends hash_map_store hash_map-HasLaws started genesis_hash genesis_hash first_states
      started-IsTree.0
      (block ∷ [])
      (on_received_peer_blocks hash_map_store sent started)
on_received_peer_blocks-IsCaughtUp_example =
    on_received_peer_blocks-IsCaughtUp hash_map_store hash_map-HasLaws started genesis_hash
      genesis_hash first_states sent started-IsTree.0 started-HasRoom block-AreNew

abbrev template : BlockTemplate
template = record {
  proof_hash = record { bytes = 190 ∷ 0 ∷ 0 ∷ 0 ∷ 0 ∷ 0 ∷ 0 ∷ 0 ∷ [] };
  previous_block = genesis_hash;
  timestamp = 1001;
  staker_pk = alice;
  staker_sk = record { bytes = 11 ∷ [] };
}

-- A service with Alice's payment among its pending transactions.
abbrev waiting : IroncService HashMapStore (Unit {0})
waiting = record service { pending_transactions = payment ∷ [] }

abbrev pub nb_write : Bytes → Action (Unit {0}) (Unit {0})
nb_write bytes socket = (ok tt, socket)

abbrev made : Run HashedBlock
made = (make_staked_block hash_map_store template waiting).0

abbrev staked_hash : HashDigest
staked_hash = record { bytes = 131 ∷ 0 ∷ 0 ∷ 0 ∷ 0 ∷ 0 ∷ 0 ∷ 0 ∷ [] }

abbrev staked : HashedBlock
staked = record {
  hash = some staked_hash.bytes;
  signed_block = some (record {
    signature = some (11 ∷ 189 ∷ []);
    block = some (record {
      staker_pk = some (11 ∷ []);
      previous = some genesis_hash.bytes;
      timestamp = some 1001;
      height = some 1;
      target_hash = some template.proof_hash.bytes;
      transactions = payment ∷ [];
    });
  });
}

-- Sockets that have nothing to read.
abbrev pub quiet : Nanomsg (Unit {0}) (Unit {0})
quiet = record {
  socket = λ _ w. (ok tt, w);
  subscribe = λ _ _ w. (ok tt, w);
  connect = λ _ _ w. (ok tt, w);
  nb_write = λ _ _ w. (ok tt, w);
  nb_read_to_end = λ _ w. (Received.try_again, w);
}

abbrev pub node : Application (IroncService HashMapStore (Unit {0})) (Unit {0}) (Unit {0})
node = record {
  app_public_key = root;
  app_secret_key = root_key;
  endpoint = [];
  peers = Peer.new (b'p' ∷ []) ∷ [];
  service = service;
  staker = staker;
  sub_head_socket = tt;
  world = tt;
}

abbrev asked : SignedRpcRequest
asked = record {
  signature = none;
  request = some (wrap_pub_transaction_request (record { transaction = some payment }));
}

abbrev request_bytes : Bytes
request_bytes = signed_rpc_request.put asked []

handle_raw_rpc_request-IsAnswering_example :
    IsAnswering hash_map_store node
      (handle_raw_rpc_request (rpc_service hash_map_store) request_bytes node).1
handle_raw_rpc_request-IsAnswering_example =
    handle_raw_rpc_request-IsAnswering hash_map_store request_bytes node

-- The answer of a peer that was asked for a block.
abbrev response : RpcResponse
response = record empty_response {
  status = some RpcStatus.ok;
  original_request = some (record {
    signature = none;
    request = some (record empty_request { method = some Method.get_blocks });
  });
  get_blocks = some sent;
}

abbrev synced : Application (IroncService HashMapStore (Unit {0})) (Unit {0}) (Unit {0})
synced = (handle_peer_response quiet (sync_blocktree hash_map_store) 0 response node).1

abbrev followed : Application (IroncService HashMapStore (Unit {0})) (Unit {0}) (Unit {0})
followed = (handle_new_head_block block synced).1

abbrev served : Application (IroncService HashMapStore (Unit {0})) (Unit {0}) (Unit {0})
served = (handle_raw_rpc_request (rpc_service hash_map_store) request_bytes followed).1

Runs-Continues_example :
    Continues hash_map_store started genesis_hash first_states served.service.blocktree
Runs-Continues_example =
    Runs-Continues hash_map_store nb_write quiet hash_map-HasLaws node served genesis_hash
      genesis_hash first_states
      (Runs.next (Handles.responded 0 response (started-HasRoom, block-AreNew) refl) (
        Runs.next (Handles.headed block refl)
          (Runs.next (Handles.requested request_bytes refl) Runs.done)))
      started-IsTree.0
