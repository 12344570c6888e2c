-- ===== src/Service/Client.antt =====
-- `Client` of service.rs: the RPC service at the other end of a socket.
use ironcoin.Base.{some, none, Bytes, get_or}
use ironcoin.Base.Action.{Action, lift, pure, ◌>>=◌, ◌>>◌}
use ironcoin.Message.Codecs.{Codecs}
use ironcoin.Message.Rpc.{
  GetBlocksRequest, GetBlocksResponse, GetBlocktreeRequest, GetBlocktreeResponse, PubBlockRequest,
  PubStatus, PubTransactionRequest, PubTransactionResponse, RpcRequest, RpcResponse,
  SignedRpcRequest, empty_blocks_response, empty_blocktree_response, empty_transaction_response,
}
use ironcoin.Service.Requests.{
  wrap_get_blocks_request, wrap_get_blocktree_request, wrap_pub_block_request,
  wrap_pub_transaction_request,
}
use ironcoin.Service.Traits.{RpcService}

-- The connected socket of a client, with `World` as the state at both of its ends.
pub record Connection (World : Type 0) : Type 0 where
  pub write_all : Bytes → Action World (Unit {0})
  pub read_to_end : Action World Bytes

abbrev pub unsigned : RpcRequest → SignedRpcRequest
unsigned request = record { signature = none; request = some request }

module _ {World : Type 0} (socket : Connection World) ⦃codecs : Codecs⦄ where
  unfoldable pub dispatch : SignedRpcRequest → Action World RpcResponse
  dispatch request = do
    request_bytes ← lift (codecs.signed_rpc_request.write_to_bytes request)
    socket.write_all request_bytes
    response_bytes ← socket.read_to_end
    lift (codecs.rpc_response.parse_from_bytes response_bytes)

  unfoldable pub get_blocks : GetBlocksRequest → Action World GetBlocksResponse
  unfolding dispatch wrap_get_blocks_request
  get_blocks request = do
    response ← dispatch (unsigned (wrap_get_blocks_request request))
    pure (get_or response.get_blocks empty_blocks_response)

  unfoldable pub get_blocktree : GetBlocktreeRequest → Action World GetBlocktreeResponse
  unfolding dispatch wrap_get_blocktree_request
  get_blocktree request = do
    response ← dispatch (unsigned (wrap_get_blocktree_request request))
    pure (get_or response.get_blocktree empty_blocktree_response)

  unfoldable pub pub_block : PubBlockRequest → Action World PubStatus
  unfolding dispatch wrap_pub_block_request
  pub_block request = do
    response ← dispatch (unsigned (wrap_pub_block_request request))
    pure (get_or response.pub_block PubStatus.invalid)

  unfoldable pub pub_transaction : PubTransactionRequest → Action World PubTransactionResponse
  unfolding dispatch wrap_pub_transaction_request
  pub_transaction request = do
    response ← dispatch (unsigned (wrap_pub_transaction_request request))
    pure (get_or response.pub_transaction empty_transaction_response)

  -- `RpcService` for `Client`
  unfoldable pub client_service : RpcService World
  unfolding get_blocks get_blocktree pub_block pub_transaction
  client_service = record {
    get_blocks = get_blocks;
    get_blocktree = get_blocktree;
    pub_block = pub_block;
    pub_transaction = pub_transaction;
  }
