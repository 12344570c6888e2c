-- ===== src/Service/Traits.antt =====
-- The traits of service.rs, by which app.rs uses a service, and their implementation by
-- `IroncService`.
use ironcoin.Base.{Option, [], Bytes}
use ironcoin.Base.Action.{Action}
use ironcoin.Base.Run
use ironcoin.Base.Run.{Run, ok, unwrap}
use ironcoin.Blocktree.Keys.{get_head, get_head_hash}
use ironcoin.External.{Base64, Sodium}
use ironcoin.Message.Codecs.{Codecs}
use ironcoin.Message.Ledger.{HashedBlock}
use ironcoin.Message.Rpc.{
  GetBlocksRequest, GetBlocksResponse, GetBlocktreeRequest, GetBlocktreeResponse, PubBlockRequest,
  PubStatus, PubTransactionRequest, PubTransactionResponse, RpcRequest,
}
use ironcoin.Service.Answers.{get_blocks, get_blocktree, pub_block}
use ironcoin.Service.Heads.{on_successful_stake}
use ironcoin.Service.Pending.{pub_transaction}
use ironcoin.Service.State.{IroncService, on_blocktree, read_blocktree}
use ironcoin.Service.Sync.{on_peer_blocktree_update, on_received_peer_blocks}
use ironcoin.Staking.{BlockTemplate}
use ironcoin.Store.{KeyValueStore}

pub record RpcService (Service : Type 0) : Type 0 where
  pub get_blocks : GetBlocksRequest → Action Service GetBlocksResponse
  pub get_blocktree : GetBlocktreeRequest → Action Service GetBlocktreeResponse
  pub pub_block : PubBlockRequest → Action Service PubStatus
  pub pub_transaction : PubTransactionRequest → Action Service PubTransactionResponse

pub record StakerService (Service : Type 0) : Type 0 where
  pub on_successful_stake : BlockTemplate → Action Service (Unit {0})

pub record HeadBlockPubService (Service : Type 0) : Type 0 where
  pub get_pub_endpoint : Service → Bytes
  pub current_head_block : Service → Run HashedBlock

pub record SyncBlocktree (Service : Type 0) : Type 0 where
  pub on_peer_blocktree_update : GetBlocktreeResponse → Action Service (Option RpcRequest)
  pub on_received_peer_blocks : GetBlocksResponse → Action Service (Option RpcRequest)

module _ {S Socket : Type 0} (kv : KeyValueStore S) ⦃sodium : Sodium⦄ ⦃base64 : Base64⦄
    ⦃codecs : Codecs⦄ where
  unfoldable pub rpc_service : RpcService (IroncService S Socket)
  unfolding get_blocks get_blocktree pub_block pub_transaction
  rpc_service = record {
    get_blocks = λ request. read_blocktree (get_blocks kv request);
    get_blocktree = λ request. read_blocktree (get_blocktree kv request);
    pub_block = λ request. read_blocktree (pub_block kv request);
    pub_transaction = λ request. pub_transaction kv request;
  }

  unfoldable pub head_block_pub_service : HeadBlockPubService (IroncService S Socket)
  unfolding get_head
  head_block_pub_service = record {
    get_pub_endpoint = λ service. service.pub_block_endpoint_str;
    current_head_block = λ service. get_head kv service.blocktree;
  }

  unfoldable pub sync_blocktree : SyncBlocktree (IroncService S Socket)
  unfolding on_peer_blocktree_update on_received_peer_blocks
  sync_blocktree = record {
    on_peer_blocktree_update = λ response. read_blocktree (on_peer_blocktree_update kv response);
    on_received_peer_blocks = λ response. on_blocktree (on_received_peer_blocks kv response);
  }

  unfoldable pub staker_service :
      (Bytes → Action Socket (Unit {0})) → StakerService (IroncService S Socket)
  unfolding on_successful_stake
  staker_service nb_write = record { on_successful_stake = on_successful_stake kv nb_write }

  -- `IroncService::new`, with the socket that `Socket::new` and `bind` answer with.
  unfoldable pub new : Bytes → Run Socket → S → Run (IroncService S Socket)
  unfolding get_head_hash
  new pub_endpoint_str bound blocktree = Run.◌>>=◌ (unwrap (get_head_hash kv blocktree)) (λ _.
      Run.◌>>=◌ bound (λ pub_socket. ok (record {
        blocktree = blocktree;
        pending_transactions = [];
        pub_block_socket = pub_socket;
        pub_block_endpoint_str = pub_endpoint_str;
      })))
