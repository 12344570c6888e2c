-- ===== src/Tests/Served.antt =====
-- The theorems on clients, over a node that serves the tree of the test genesis.
use ironcoin.Base.{◌≡◌, ◌≢◌, refl, sym, ◌∙◌, none, some, [], ◌∷◌, ◌⊎◌, Bytes}
use ironcoin.Base.Run.{Run, ok, err, IroncError, Panic}
use ironcoin.App.Dispatch.{handle_raw_rpc_request}
use ironcoin.App.Exchange.{
  replied, client_service-outcome, connection, outcome, serve_request-answered,
}
use ironcoin.App.Loop.{Loop, Traits, answer_of, serve_request}
use ironcoin.App.State.{Application}
use ironcoin.External.{IsFaithful}
use ironcoin.Message.Rpc.{
  GetBlocksRequest, GetBlocktreeRequest, PubBlockRequest, PubStatus, PubTransactionRequest,
  RpcResponse, SignedRpcRequest, block_answer, blocks_answer, blocktree_answer,
  empty_blocks_response, empty_blocktree_response, empty_transaction_response, transaction_answer,
}
use ironcoin.Service.Client.{client_service}
use ironcoin.Service.Requests.{
  wrap_get_blocks_request, wrap_get_blocktree_request, wrap_pub_block_request,
  wrap_pub_transaction_request,
}
use ironcoin.Service.State.{IroncService}
use ironcoin.Service.Traits.{head_block_pub_service, rpc_service, staker_service, sync_blocktree}
use ironcoin.Store.{HashMapStore, hash_map_store}
use ironcoin.Tests.Chain.{block, genesis_hash, payment}
use ironcoin.Tests.Coder.{codec-IsFaithful}
use ironcoin.Tests.Nodes.{node}
use ironcoin.Tests.Wire.{rpc_response, signed_rpc_request}
use ironcoin.Tests.World.{base64, codecs, sodium}

abbrev Service : Type 0
Service = IroncService HashMapStore (Unit {0})

abbrev traits : Traits Service
traits = record {
  rpc = rpc_service hash_map_store;
  stakes = staker_service hash_map_store (λ _ socket. (ok tt, socket));
  head = head_block_pub_service hash_map_store;
  sync = sync_blocktree hash_map_store;
}

abbrev idle : Loop Service (Unit {0}) (Unit {0})
idle = record { app = node; probe = 0; replies = [] }

requests : IsFaithful codecs.signed_rpc_request
requests = codec-IsFaithful signed_rpc_request

responses : IsFaithful codecs.rpc_response
responses = codec-IsFaithful rpc_response

abbrev blocks : GetBlocksRequest
blocks = record { blocks = genesis_hash.bytes ∷ [] }

abbrev blocktree : GetBlocktreeRequest
blocktree = record { start_height = some 0 }

abbrev block_sent : PubBlockRequest
block_sent = record { block = some block }

abbrev transaction : PubTransactionRequest
transaction = record { transaction = some payment }

client_service-outcome_example :
    let client = client_service (connection traits) in
    (client.get_blocks blocks idle
      ≡ outcome traits requests responses blocks_answer empty_blocks_response
          (wrap_get_blocks_request blocks)
          idle
          (traits.rpc.get_blocks blocks node.service))
    × (client.get_blocktree blocktree idle
        ≡ outcome traits requests responses blocktree_answer empty_blocktree_response
            (wrap_get_blocktree_request blocktree)
            idle
            (traits.rpc.get_blocktree blocktree node.service))
    × (client.pub_block block_sent idle
        ≡ outcome traits requests responses block_answer PubStatus.invalid
            (wrap_pub_block_request block_sent)
            idle
            (traits.rpc.pub_block block_sent node.service))
    × (client.pub_transaction transaction idle
        ≡ outcome traits requests responses transaction_answer empty_transaction_response
            (wrap_pub_transaction_request transaction)
            idle
            (traits.rpc.pub_transaction transaction node.service))
client_service-outcome_example =
    client_service-outcome traits requests responses idle blocks blocktree block_sent transaction

abbrev asked : SignedRpcRequest
asked = record { signature = none; request = some (wrap_get_blocks_request blocks) }

abbrev request_bytes : Bytes
request_bytes = signed_rpc_request.put asked []

abbrev handled : Run RpcResponse × Application Service (Unit {0}) (Unit {0})
handled = handle_raw_rpc_request traits.rpc request_bytes node

handled_ok : (response : RpcResponse) × (handled.0 ≡ ok response)
unfolding handle_raw_rpc_request wrap_get_blocks_request rpc_service hash_map_store
handled_ok = (_, refl)

handled_calm : (p : Panic) → handled.0 ≢ Run.panic p
handled_calm p e =
    let answered : ok handled_ok.0 ≡ Run.panic p = sym handled_ok.1 ∙ e in cc answered

serve_request-answered_example :
    (response : RpcResponse) × (serve_request traits (ok request_bytes) none idle
      ≡ (ok tt, replied traits requests responses none idle handled.1 response))
    × (codecs.rpc_response.parse_from_bytes (responses.encode response) ≡ ok response)
    × ((handled.0 ≡ ok response)
        ⊎ ((e : IroncError) × (handled.0 ≡ err e) × (response ≡ answer_of none)))
serve_request-answered_example =
    serve_request-answered traits requests responses request_bytes none idle handled_calm
