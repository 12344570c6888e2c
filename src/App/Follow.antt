-- ===== src/App/Follow.antt =====
-- How app.rs follows its peers and its own head: responses, new heads, probes and staking.
use ironcoin.Base.{ℕ, ◌-◌, Option, some, none, List, [], ◌∷◌, get_or, ltb, if◌then◌else◌}
use ironcoin.Base.Run.{Run, ok, panic}
use ironcoin.Base.Action.{Action, gets, lift, modify, pure, ◌>>=◌}
use ironcoin.App.Peer.{Peer, async_get_blocktree, sign_and_send}
use ironcoin.App.Socket.{Nanomsg}
use ironcoin.App.State.{Application, on_peer, on_service, on_staker, read_service}
use ironcoin.Block.{decode_hash, get_block, get_height}
use ironcoin.Crypto.SecretKey.{SecretKey}
use ironcoin.External.{Sodium}
use ironcoin.Message.Codecs.{Codecs}
use ironcoin.Message.Ledger.{HashedBlock, get_num}
use ironcoin.Message.Rpc.{
  Method, RpcRequest, RpcResponse, empty_blocks_response, empty_blocktree_response, get_method,
  get_original_request, get_request,
}
use ironcoin.Service.Traits.{HeadBlockPubService, StakerService, SyncBlocktree}
use ironcoin.Staking
use ironcoin.Staking.{stake_interval, staking_interval}

module _ {World Socket : Type 0} (nanomsg : Nanomsg World Socket) ⦃sodium : Sodium⦄
    ⦃codecs : Codecs⦄ where
  -- The loop of `probe_network_state`: an error is printed, and the next peer is asked.
  unfoldable pub probe_peers :
      ℕ → SecretKey → List (Peer Socket) → World → Run (Unit {0}) × List (Peer Socket) × World
  unfolding async_get_blocktree
  probe_peers start_height key [] world = (ok tt, [], world)
  probe_peers start_height key (peer ∷ peers) world =
      let (r, (peer', world')) =
        async_get_blocktree nanomsg (record { start_height = some start_height }) (some key)
          (peer, world) in
      let (r', peers', world'') = probe_peers start_height key peers world' in
      elim r [ panic p ↦ (panic p, peer' ∷ peers, world') | _ ↦ (r', peer' ∷ peers', world'') ]

module _ {Service World Socket : Type 0} where
  -- The branches of the `match` in `handle_peer_response`, and the method that it is on.
  unfoldable pub reply_by :
      SyncBlocktree Service
      → Method
      → RpcResponse
      → Action (Application Service World Socket) (Option RpcRequest)
  reply_by sync Method.get_blocks response =
      on_service (sync.on_received_peer_blocks (get_or response.get_blocks empty_blocks_response))
  reply_by sync Method.get_blocktree response =
      on_service
        (sync.on_peer_blocktree_update (get_or response.get_blocktree empty_blocktree_response))
  reply_by sync _ response = pure none

  unfoldable pub reply_to :
      SyncBlocktree Service
      → RpcResponse
      → Action (Application Service World Socket) (Option RpcRequest)
  unfolding reply_by
  reply_to sync response =
      reply_by sync (get_method (get_request (get_original_request response))) response

module _ {Service World Socket : Type 0} ⦃sodium : Sodium⦄ where
  -- The staker moves to a new head.
  unfoldable pub handle_new_head_block :
      HashedBlock → Action (Application Service World Socket) (Unit {0})
  unfolding decode_hash get_block Staking.set_head_block
  handle_new_head_block new_head = do
    head_hash ← lift (decode_hash new_head)
    on_staker (modify (Staking.set_head_block head_hash (get_num (get_block new_head).timestamp)))

  -- The clock's time is an argument.
  unfoldable pub try_staking_a_new_block :
      StakerService Service → ℕ → Action (Application Service World Socket) (Unit {0})
  unfolding stake_interval
  try_staking_a_new_block stakes now = do
    found ← on_staker (stake_interval now staking_interval)
    elim found [ some template ↦ on_service (stakes.on_successful_stake template) | none ↦ pure tt ]

  unfoldable pub handle_timeout :
      StakerService Service → ℕ → Action (Application Service World Socket) (Unit {0})
  unfolding try_staking_a_new_block
  handle_timeout = try_staking_a_new_block

  module _ (nanomsg : Nanomsg World Socket) ⦃codecs : Codecs⦄ where
    unfoldable pub handle_peer_response :
        SyncBlocktree Service
        → ℕ
        → RpcResponse
        → Action (Application Service World Socket) (Unit {0})
    unfolding reply_to on_peer sign_and_send
    handle_peer_response sync peer_index response = do
      maybe_reply ← reply_to sync response
      key ← gets (λ app. app.app_secret_key)
      elim maybe_reply [
        | some request ↦ on_peer peer_index (sign_and_send nanomsg request (some key))
        | none ↦ pure tt
      ]

    unfoldable pub probe_network_state :
        HeadBlockPubService Service → Action (Application Service World Socket) (Unit {0})
    unfolding get_height probe_peers
    probe_network_state head = do
      head_block ← read_service head.current_head_block
      let head_height = get_height head_block
      let start_height = if ltb 10 head_height then head_height - 10 else 0
      λ app.
          let (r, peers, world) =
            probe_peers nanomsg start_height app.app_secret_key app.peers app.world in
          (r, record app { peers = peers; world = world })
