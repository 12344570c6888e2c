-- ===== src/Message/Rpc.antt =====
-- The RPC messages of ironcoin_pb.proto. A description is the error whose text it holds.
use ironcoin.Base.{ℕ, Option, some, none, List, [], Bytes, get_or}
use ironcoin.Base.Run.{IroncError}
use ironcoin.Message.Ledger.{HashedBlock, Transaction}

pub record GetBlocksRequest : Type 0 where
  pub blocks : List Bytes

-- `GetBlocksResponse_Status`, and so for the others; `invalid` is the status of an absent field.
pub data BlocksStatus : Type 0 where
  invalid ok invalid_hash unknown_block : BlocksStatus

pub record GetBlocksResponse : Type 0 where
  pub status : BlocksStatus
  pub description : Option IroncError
  pub blocks : List HashedBlock

pub record GetBlocktreeRequest : Type 0 where
  pub start_height : Option ℕ

pub data BlocktreeStatus : Type 0 where
  invalid ok invalid_request : BlocktreeStatus

pub record GetBlocktreeResponse : Type 0 where
  pub status : BlocktreeStatus
  pub description : Option IroncError
  pub head : Option Bytes
  pub head_height : Option ℕ
  pub start_height : Option ℕ
  pub ancestors : List Bytes

pub record PubBlockRequest : Type 0 where
  pub block : Option HashedBlock

pub data PubStatus : Type 0 where
  invalid ok invalid_request invalid_block : PubStatus

pub record PubTransactionRequest : Type 0 where
  pub transaction : Option Transaction

pub record PubTransactionResponse : Type 0 where
  pub status : PubStatus
  pub description : Option IroncError

-- `RpcRequest_Method`
pub data Method : Type 0 where
  invalid get_blocks get_blocktree pub_block pub_transaction : Method

-- The field of the method says which request is meant, and the requests are fields of their own.
pub record RpcRequest : Type 0 where
  pub method : Option Method
  pub get_blocks : Option GetBlocksRequest
  pub get_blocktree : Option GetBlocktreeRequest
  pub pub_block : Option PubBlockRequest
  pub pub_transaction : Option PubTransactionRequest

abbrev pub empty_request : RpcRequest
empty_request = record {
  method = none;
  get_blocks = none;
  get_blocktree = none;
  pub_block = none;
  pub_transaction = none;
}

-- The requests by `take`, which answers with an empty message where the field is absent.
abbrev pub take_get_blocks : RpcRequest → GetBlocksRequest
take_get_blocks request = get_or request.get_blocks (record { blocks = [] })

abbrev pub take_get_blocktree : RpcRequest → GetBlocktreeRequest
take_get_blocktree request = get_or request.get_blocktree (record { start_height = none })

abbrev pub take_pub_block : RpcRequest → PubBlockRequest
take_pub_block request = get_or request.pub_block (record { block = none })

abbrev pub take_pub_transaction : RpcRequest → PubTransactionRequest
take_pub_transaction request = get_or request.pub_transaction (record { transaction = none })

pub record SignedRpcRequest : Type 0 where
  pub signature : Option Bytes
  pub request : Option RpcRequest

abbrev pub get_request : SignedRpcRequest → RpcRequest
get_request signed = get_or signed.request empty_request

abbrev pub get_method : RpcRequest → Method
get_method request = get_or request.method Method.invalid

-- `RpcResponse_Status`
pub data RpcStatus : Type 0 where
  invalid ok invalid_message invalid_method request_limit_reached internal_error : RpcStatus

pub record RpcResponse : Type 0 where
  pub status : Option RpcStatus
  pub original_request : Option SignedRpcRequest
  pub get_blocks : Option GetBlocksResponse
  pub get_blocktree : Option GetBlocktreeResponse
  pub pub_block : Option PubStatus
  pub pub_transaction : Option PubTransactionResponse

abbrev pub empty_response : RpcResponse
empty_response = record {
  status = none;
  original_request = none;
  get_blocks = none;
  get_blocktree = none;
  pub_block = none;
  pub_transaction = none;
}

abbrev pub get_original_request : RpcResponse → SignedRpcRequest
get_original_request response =
    get_or response.original_request (record { signature = none; request = none })

-- A response with its status and one field set.
abbrev pub blocks_answer : GetBlocksResponse → RpcResponse
blocks_answer response = record empty_response {
  status = some RpcStatus.ok;
  get_blocks = some response;
}

abbrev pub blocktree_answer : GetBlocktreeResponse → RpcResponse
blocktree_answer response = record empty_response {
  status = some RpcStatus.ok;
  get_blocktree = some response;
}

abbrev pub block_answer : PubStatus → RpcResponse
block_answer response = record empty_response {
  status = some RpcStatus.ok;
  pub_block = some response;
}

abbrev pub transaction_answer : PubTransactionResponse → RpcResponse
transaction_answer response = record empty_response {
  status = some RpcStatus.ok;
  pub_transaction = some response;
}

-- What `take` and the getters answer where the field is absent.
abbrev pub empty_blocks_response : GetBlocksResponse
empty_blocks_response = record { status = BlocksStatus.invalid; description = none; blocks = [] }

abbrev pub empty_blocktree_response : GetBlocktreeResponse
empty_blocktree_response = record {
  status = BlocktreeStatus.invalid;
  description = none;
  head = none;
  head_height = none;
  start_height = none;
  ancestors = [];
}

abbrev pub empty_transaction_response : PubTransactionResponse
empty_transaction_response = record { status = PubStatus.invalid; description = none }
