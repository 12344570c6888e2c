-- ===== src/App/Loop.antt =====
-- The event loop of app.rs. A round is given what `poll` reports, and what the two sockets that it
-- reads hold.
use ironcoin.Base.{
  ℕ, zero, suc, ◌+◌, ◌%◌, nat_eq, ◌==◌, Option, some, none, List, [], ◌∷◌, ◌++◌, Bytes, length,
  if◌then◌else◌,
}
use ironcoin.Base.Run.{Run, ok, err, panic, unwrap, IroncError}
use ironcoin.Base.Action.{Action, for_each, gets, lift, modify, pure, raise, ◌>>=◌, ◌>>◌}
use ironcoin.App.Dispatch.{handle_raw_rpc_request}
use ironcoin.App.Follow.{
  handle_new_head_block, handle_peer_response, handle_timeout, probe_network_state,
}
use ironcoin.App.Peer.{recv}
use ironcoin.App.Socket.{Nanomsg}
use ironcoin.App.State.{Application, on_peer, on_staker}
use ironcoin.Block.{decode_hash, get_block}
use ironcoin.External.{Sodium}
use ironcoin.Message.Codecs.{Codecs}
use ironcoin.Message.Ledger.{get_num}
use ironcoin.Message.Rpc.{RpcResponse, RpcStatus, empty_response}
use ironcoin.Service.Traits.{HeadBlockPubService, RpcService, StakerService, SyncBlocktree}
use ironcoin.Staking

-- The four traits that the application asks of its service.
pub record Traits (Service : Type 0) : Type 0 where
  pub rpc : RpcService Service
  pub stakes : StakerService Service
  pub head : HeadBlockPubService Service
  pub sync : SyncBlocktree Service

-- What `poll` reports: a timeout, with the clock's time; an error; or the sockets that can be read,
-- each with what the read of it answers, and the first with what the write of the reply answers.
pub data Polled : Type 0 where
  timeout : ℕ → Polled
  failed : IroncError → Polled
  ready : Option (Run Bytes × Option IroncError) → Option (Run Bytes) → Polled

-- `probe` counts the timeouts. `replies` has what was written to `rpc_socket`, in order.
pub record Loop (Service World Socket : Type 0) : Type 0 where
  pub app : Application Service World Socket
  pub probe : ℕ
  pub replies : List Bytes

-- A result whose error is printed.
abbrev pub printed : {S A : Type 0} → Action S A → Action S (Option A)
printed action s =
    let (r, s') = action s in
    (elim r [ ok a ↦ ok (some a) | err _ ↦ ok none | panic p ↦ panic p ], s')

-- The response that is sent where the handler fails.
abbrev pub answer_of : Option RpcResponse → RpcResponse
answer_of (some response) = response
answer_of none = record empty_response { status = some RpcStatus.internal_error }

module _ {Service World Socket : Type 0} where
  abbrev pub on_app :
      {A : Type 0}
      → Action (Application Service World Socket) A
      → Action (Loop Service World Socket) A
  on_app action state = let (r, app) = action state.app in (r, record state { app = app })

  -- `write_all` on `rpc_socket`, with the error that it answers, if any: the error is printed.
  abbrev pub write_all : Option IroncError → Bytes → Action (Loop Service World Socket) (Unit {0})
  write_all none bytes = modify (λ state. record state { replies = state.replies ++ bytes ∷ [] })
  write_all (some _) bytes = pure tt

  module _ (traits : Traits Service) ⦃sodium : Sodium⦄ ⦃codecs : Codecs⦄ where
    -- The branch for an RPC request.
    unfoldable pub serve_request :
        Run Bytes → Option IroncError → Action (Loop Service World Socket) (Unit {0})
    unfolding handle_raw_rpc_request
    serve_request read written = do
      request_bytes ← lift read
      maybe_response ← on_app (printed (handle_raw_rpc_request traits.rpc request_bytes))
      response_bytes ← lift (unwrap (codecs.rpc_response.write_to_bytes (answer_of maybe_response)))
      write_all written response_bytes

    -- The branch for a new head block.
    unfoldable pub serve_new_head : Run Bytes → Action (Loop Service World Socket) (Unit {0})
    unfolding handle_new_head_block
    serve_new_head read = do
      msg_bytes ← lift read
      new_head ← lift (codecs.hashed_block.parse_from_bytes msg_bytes)
      on_app (handle_new_head_block new_head)

  module _ (traits : Traits Service) (nanomsg : Nanomsg World Socket) ⦃sodium : Sodium⦄
      ⦃codecs : Codecs⦄ where
    -- One peer: a response that was read is handled, and an error is printed.
    unfoldable pub serve_peer : ℕ → Action (Application Service World Socket) (Unit {0})
    unfolding on_peer recv handle_peer_response
    serve_peer index = do
      received ← printed (on_peer index (recv nanomsg))
      elim received [
        | some (some response) ↦ do
          _ ← printed (handle_peer_response nanomsg traits.sync index response)
          pure tt
        | _ ↦ pure tt
      ]

    -- The loop over the peers, from an index on.
    unfoldable pub serve_peers : ℕ → ℕ → Action (Application Service World Socket) (Unit {0})
    unfolding serve_peer
    serve_peers zero index = pure tt
    serve_peers (suc left) index = serve_peer index >> serve_peers left (index + 1)

    unfoldable pub serve_timeout : ℕ → Action (Loop Service World Socket) (Unit {0})
    unfolding decode_hash get_block Staking.set_head_block handle_timeout probe_network_state
    serve_timeout now = do
      state ← gets (λ s. s)
      head_block ← lift (unwrap (traits.head.current_head_block state.app.service))
      head_hash ← lift (unwrap (decode_hash head_block))
      on_app (
          on_staker
            (modify (Staking.set_head_block head_hash (get_num (get_block head_block).timestamp))))
      on_app (handle_timeout traits.stakes now)
      modify (λ s. record s { probe = s.probe + 1 })
      if (state.probe + 1) % 7 == 0
          then on_app (λ app.
            let (r, app') = probe_network_state nanomsg traits.head app in (unwrap r, app'))
          else pure tt

    -- The body of the loop.
    unfoldable pub serve : Polled → Action (Loop Service World Socket) (Unit {0})
    unfolding serve_timeout serve_request serve_new_head serve_peers
    serve (Polled.timeout now) = serve_timeout now
    serve (Polled.failed e) = raise e
    serve (Polled.ready request new_head) = do
      elim request [ some (read, written) ↦ serve_request traits read written | none ↦ pure tt ]
      elim new_head [ some read ↦ serve_new_head traits read | none ↦ pure tt ]
      peers ← gets (λ state. state.app.peers)
      on_app (serve_peers (length peers) 0)

    -- `run`, for the rounds that the list reports.
    unfoldable pub run : List Polled → Action (Loop Service World Socket) (Unit {0})
    unfolding for_each serve
    run = for_each serve
