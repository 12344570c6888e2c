-- ===== src/Service/Requests.antt =====
-- The requests of service.rs, wrapped with the method that they call.
use ironcoin.Base.{some}
use ironcoin.Message.Rpc.{
  GetBlocksRequest, GetBlocktreeRequest, Method, PubBlockRequest, PubTransactionRequest, RpcRequest,
  empty_request,
}

unfoldable pub wrap_get_blocks_request : GetBlocksRequest → RpcRequest
wrap_get_blocks_request request = record empty_request {
  method = some Method.get_blocks;
  get_blocks = some request;
}

unfoldable pub wrap_get_blocktree_request : GetBlocktreeRequest → RpcRequest
wrap_get_blocktree_request request = record empty_request {
  method = some Method.get_blocktree;
  get_blocktree = some request;
}

unfoldable pub wrap_pub_block_request : PubBlockRequest → RpcRequest
wrap_pub_block_request request = record empty_request {
  method = some Method.pub_block;
  pub_block = some request;
}

unfoldable pub wrap_pub_transaction_request : PubTransactionRequest → RpcRequest
wrap_pub_transaction_request request = record empty_request {
  method = some Method.pub_transaction;
  pub_transaction = some request;
}
