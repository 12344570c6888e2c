-- ===== src/App/Dispatch.antt =====
-- How app.rs answers a request: `dispatch` by its method, and `handle_raw_rpc_request`.
use ironcoin.Base.{some, Bytes}
use ironcoin.Base.Run.{ok, err, panic}
use ironcoin.Base.Action.{Action, pure, ◌>>=◌}
use ironcoin.App.State.{Application, on_service}
use ironcoin.Message.Codecs.{Codecs}
use ironcoin.Message.Rpc.{
  Method, RpcRequest, RpcResponse, RpcStatus, empty_response, get_method, get_request,
  take_get_blocks, take_get_blocktree, take_pub_block, take_pub_transaction, blocks_answer,
  blocktree_answer, block_answer, transaction_answer,
}
use ironcoin.Service.Traits.{RpcService}

module _ {Service World Socket : Type 0} (rpc : RpcService Service) where
  -- The branches of `dispatch`. An accepted transaction is not passed on to the peers: the code that
  -- did is commented out.
  unfoldable pub call : Method → RpcRequest → Action (Application Service World Socket) RpcResponse
  call Method.invalid request =
      pure (record empty_response { status = some RpcStatus.invalid_method })
  call Method.get_blocks request = do
    response ← on_service (rpc.get_blocks (take_get_blocks request))
    pure (blocks_answer response)
  call Method.get_blocktree request = do
    response ← on_service (rpc.get_blocktree (take_get_blocktree request))
    pure (blocktree_answer response)
  call Method.pub_block request = do
    response ← on_service (rpc.pub_block (take_pub_block request))
    pure (block_answer response)
  call Method.pub_transaction request = do
    response ← on_service (rpc.pub_transaction (take_pub_transaction request))
    pure (transaction_answer response)

  unfoldable pub dispatch : RpcRequest → Action (Application Service World Socket) RpcResponse
  unfolding call
  dispatch request = call (get_method request) request

  -- The signature of the request is not looked at.
  unfoldable pub handle_raw_rpc_request :
      ⦃codecs : Codecs⦄ → Bytes → Action (Application Service World Socket) RpcResponse
  unfolding dispatch
  handle_raw_rpc_request ⦃codecs⦄ raw_request app =
      elim (codecs.signed_rpc_request.parse_from_bytes raw_request) [
        | ok signed_request ↦
            (do
              response ← dispatch (get_request signed_request)
              pure (record response { original_request = some signed_request }))
              app
        | err _ ↦ (ok (record empty_response { status = some RpcStatus.invalid_message }), app)
        | panic p ↦ (panic p, app)
      ]
