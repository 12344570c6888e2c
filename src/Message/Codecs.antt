-- ===== src/Message/Codecs.antt =====
-- The codecs of the messages that the code writes and reads.
use ironcoin.External.{Codec}
use ironcoin.Message.Ledger.{Balance, Block, BlockWithDiff, Commitment, HashedBlock, SignedBlock}
use ironcoin.Message.Rpc.{RpcRequest, RpcResponse, SignedRpcRequest}

pub record Codecs : Type 0 where
  pub balance : Codec Balance
  pub block : Codec Block
  pub block_with_diff : Codec BlockWithDiff
  pub commitment : Codec Commitment
  pub hashed_block : Codec HashedBlock
  pub signed_block : Codec SignedBlock
  pub rpc_request : Codec RpcRequest
  pub signed_rpc_request : Codec SignedRpcRequest
  pub rpc_response : Codec RpcResponse
