-- ===== src/App/Exchange.antt =====
-- A client of service.rs whose socket ends in the event loop of app.rs.
use ironcoin.Service.Requests.{
  wrap_get_blocks_request, wrap_get_blocktree_request, wrap_pub_block_request,
  wrap_pub_transaction_request,
}
use ironcoin.Base.{
  ◌≡◌, refl, ◌∙◌, some, none, List, [], ◌∷◌, ◌++◌, Bytes, get_or, inl, inr, ap, ◌⊎◌, ◌≢◌, Option,
}
use ironcoin.Base.Run.{unwrap, Run, ok, err, panic, IroncError, Panic, Run-cases}
use ironcoin.Base.Action.{Action, lift, and_then, pure}
use ironcoin.App.Dispatch.{call, dispatch, handle_raw_rpc_request}
use ironcoin.App.Loop.{printed, Loop, Traits, answer_of, serve_request}
use ironcoin.App.State.{Application, on_service}
use ironcoin.External.{IsFaithful, Sodium}
use ironcoin.Message.Codecs.{Codecs}
use ironcoin.Message.Rpc.{
  RpcResponse, SignedRpcRequest, get_request, GetBlocksRequest, GetBlocktreeRequest,
  PubBlockRequest, PubTransactionRequest, PubStatus, RpcRequest, blocks_answer, blocktree_answer,
  block_answer, transaction_answer, empty_blocks_response, empty_blocktree_response,
  empty_transaction_response,
}
use ironcoin.Service.Client
use ironcoin.Service.Client.{Connection, client_service, unsigned}

-- The bytes that were written last.
abbrev pub last_reply : List Bytes → Run Bytes
last_reply [] = panic Panic.unwrapped_none
last_reply (reply ∷ []) = ok reply
last_reply (_ ∷ reply ∷ replies) = last_reply (reply ∷ replies)

last_reply-append :
    (replies : List Bytes) (reply : Bytes) → last_reply (replies ++ reply ∷ []) ≡ ok reply
last_reply-append [] reply = refl
last_reply-append (_ ∷ []) reply = refl
last_reply-append (_ ∷ b ∷ replies) reply = last_reply-append (b ∷ replies) reply

module _ {Service World Socket : Type 0} (traits : Traits Service) ⦃sodium : Sodium⦄
    ⦃codecs : Codecs⦄ where
  -- What is written is served in one round, whose reply is written, and what is read is the reply.
  abbrev pub connection : Connection (Loop Service World Socket)
  connection = record {
    write_all = λ request_bytes. serve_request traits (ok request_bytes) none;
    read_to_end = λ state. (last_reply state.replies, state);
  }

  module _ (requests : IsFaithful codecs.signed_rpc_request)
      (responses : IsFaithful codecs.rpc_response) where
    -- The state after a request that was answered.
    abbrev pub answered :
        Loop Service World Socket
        → Application Service World Socket
        → RpcResponse
        → Loop Service World Socket
    answered state app response = record state {
      app = app;
      replies = state.replies ++ responses.encode response ∷ [];
    }

    -- The state after a request, by the error that the write of the reply answers, if any.
    abbrev pub replied :
        Option IroncError
        → Loop Service World Socket
        → Application Service World Socket
        → RpcResponse
        → Loop Service World Socket
    replied none state app response = answered state app response
    replied (some _) state app response = record state { app = app }

    serve_request-ok :
        (bytes : Bytes) (written : Option IroncError) (state : Loop Service World Socket)
        (response : RpcResponse) (app : Application Service World Socket)
        → handle_raw_rpc_request traits.rpc bytes state.app ≡ (ok response, app)
        → serve_request traits (ok bytes) written state
          ≡ (ok tt, replied written state app response)
    unfolding serve_request
    serve_request-ok bytes none state response app e =
        rw (e, printed, responses.write-eq response, unwrap, lift) refl
    serve_request-ok bytes (some _) state response app e =
        rw (e, printed, responses.write-eq response, unwrap, lift) refl

    serve_request-err :
        (bytes : Bytes) (written : Option IroncError) (state : Loop Service World Socket)
        (error : IroncError) (app : Application Service World Socket)
        → handle_raw_rpc_request traits.rpc bytes state.app ≡ (err error, app)
        → serve_request traits (ok bytes) written state
          ≡ (ok tt, replied written state app (answer_of none))
    unfolding serve_request
    serve_request-err bytes none state error app e =
        rw (e, printed, responses.write-eq (answer_of none), unwrap, lift) refl
    serve_request-err bytes (some _) state error app e =
        rw (e, printed, responses.write-eq (answer_of none), unwrap, lift) refl

    -- For every request that is read, whatever its bytes are, one reply is made, unless its handler
    -- panics: the response of the handler, or an internal error where the handler fails. Where the
    -- write of that reply succeeds, it is written once, behind the replies before it; where the
    -- write fails, nothing is. Either way the service is left as the handler leaves it, and the
    -- loop goes on.
    pub serve_request-answered :
        (bytes : Bytes) (written : Option IroncError) (state : Loop Service World Socket)
        → ((p : Panic) → (handle_raw_rpc_request traits.rpc bytes state.app).0 ≢ panic p)
        → let (r, app) = handle_raw_rpc_request traits.rpc bytes state.app in
          (response : RpcResponse) × (serve_request traits (ok bytes) written state
            ≡ (ok tt, replied written state app response))
          × (codecs.rpc_response.parse_from_bytes (responses.encode response) ≡ ok response)
          × ((r ≡ ok response) ⊎ ((e : IroncError) × (r ≡ err e) × (response ≡ answer_of none)))
    serve_request-answered bytes written state calm =
        let run = handle_raw_rpc_request traits.rpc bytes state.app in
        let whole : (r : Run RpcResponse) → run.0 ≡ r → run ≡ (r, run.1) = λ r e.
          ap {B = Run RpcResponse × Application Service World Socket}
            (λ (t : Run RpcResponse). (t, run.1)) e in
        elim (Run-cases (handle_raw_rpc_request traits.rpc bytes state.app).0) [
          | inl (response, e) ↦ (
            response,
            serve_request-ok bytes written state response _ (whole (ok response) e),
            responses.parse-encode response,
            inl e,
          )
          | inr (inl c, e) ↦ (
            answer_of none,
            serve_request-err bytes written state c _ (whole (err c) e),
            responses.parse-encode (answer_of none),
            inr (c, e, refl),
          )
          | inr (inr p, e) ↦ absurd (calm p e)
        ]

    handle_raw-ok :
        (signed : SignedRpcRequest) (app app' : Application Service World Socket)
        (response : RpcResponse)
        → dispatch traits.rpc (get_request signed) app ≡ (ok response, app')
        → handle_raw_rpc_request traits.rpc (requests.encode signed) app
          ≡ (ok (record response { original_request = some signed }), app')
    unfolding handle_raw_rpc_request
    handle_raw-ok signed app app' response e =
        rw (requests.parse-encode signed, handle_raw_rpc_request, e) refl

    Client_dispatch-ok :
        (signed : SignedRpcRequest) (state : Loop Service World Socket) (response : RpcResponse)
        (app : Application Service World Socket)
        → dispatch traits.rpc (get_request signed) state.app ≡ (ok response, app)
        → Client.dispatch connection signed state ≡ (
          ok (record response { original_request = some signed }),
          answered state app (record response { original_request = some signed }),
        )
    unfolding Client.dispatch
    Client_dispatch-ok signed state response app e =
        let full = record response { original_request = some signed } in
        let served =
          serve_request-ok (requests.encode signed) none state full app
            (handle_raw-ok signed state.app app response e) in
        rw
          (
            requests.write-eq signed,
            lift,
            served,
            last_reply-append state.replies (responses.encode full),
            responses.parse-encode full,
          )
          refl

    Client_dispatch-err :
        (signed : SignedRpcRequest) (state : Loop Service World Socket) (error : IroncError)
        (app : Application Service World Socket)
        → dispatch traits.rpc (get_request signed) state.app ≡ (err error, app)
        → Client.dispatch connection signed state
          ≡ (ok (answer_of none), answered state app (answer_of none))
    unfolding Client.dispatch handle_raw_rpc_request
    Client_dispatch-err signed state error app e =
        let served =
          serve_request-err (requests.encode signed) none state error app
            (rw (requests.parse-encode signed, handle_raw_rpc_request, e) refl) in
        rw
          (
            requests.write-eq signed,
            lift,
            served,
            last_reply-append state.replies (responses.encode (answer_of none)),
            responses.parse-encode (answer_of none),
          )
          refl

    Client_dispatch-panic :
        (signed : SignedRpcRequest) (state : Loop Service World Socket) (p : Panic)
        (app : Application Service World Socket)
        → dispatch traits.rpc (get_request signed) state.app ≡ (panic p, app)
        → Client.dispatch connection signed state ≡ (panic p, record state { app = app })
    unfolding Client.dispatch serve_request
    Client_dispatch-panic signed state p app e =
        let raw : handle_raw_rpc_request traits.rpc (requests.encode signed) state.app
            ≡ (panic p, app) =
          unfold handle_raw_rpc_request in
          rw (requests.parse-encode signed, handle_raw_rpc_request, e) refl in
        rw (requests.write-eq signed, lift, raw, printed) refl

    -- How a call of a client ends, by the answer of the service: an error comes back as an empty
    -- message, and a panic as a panic.
    abbrev pub outcome :
        {A : Type 0}
        → (A → RpcResponse)
        → A
        → RpcRequest
        → Loop Service World Socket
        → Run A × Service
        → Run A × Loop Service World Socket
    outcome wrap empty request state (ok answer, service) = (
      ok answer,
      answered state (record (state.app) { service = service })
          (record (wrap answer) { original_request = some (unsigned request) }),
    )
    outcome wrap empty request state (err _, service) =
        (ok empty, answered state (record (state.app) { service = service }) (answer_of none))
    outcome wrap empty request state (panic p, service) =
        (panic p, record state { app = record (state.app) { service = service } })

    call-outcome :
        {A : Type 0} (wrap : A → RpcResponse) (take : RpcResponse → A) (request : RpcRequest)
        (op : Action Service A) (state : Loop Service World Socket) (answer : Run A × Service)
        → ((a : A) → take (record (wrap a) { original_request = some (unsigned request) }) ≡ a)
        → dispatch traits.rpc request state.app
          ≡ and_then (on_service op state.app) (λ a. pure (wrap a))
        → op state.app.service ≡ answer
        → and_then (Client.dispatch connection (unsigned request) state) (λ r. pure (take r))
          ≡ outcome wrap (take (answer_of none)) request state answer
    call-outcome wrap take request op state (ok a, service) taken e e' =
        rw
          (Client_dispatch-ok (unsigned request) state (wrap a)
            (record (state.app) { service = service }) (e ∙ rw (e', on_service) refl))
          (rw (taken a) refl)
    call-outcome wrap take request op state (err error, service) taken e e' =
        rw
          (Client_dispatch-err (unsigned request) state error
            (record (state.app) { service = service }) (e ∙ rw (e', on_service) refl))
          refl
    call-outcome wrap take request op state (panic p, service) taken e e' =
        rw
          (Client_dispatch-panic (unsigned request) state p
            (record (state.app) { service = service }) (e ∙ rw (e', on_service) refl))
          refl

    -- Each of the four calls of a client, whose messages are read as they were written, ends as the
    -- call of the service behind it does: with its answer, and with the service and one reply more.
    -- An error of the service comes back as an empty message.
    pub client_service-outcome :
        (state : Loop Service World Socket) (blocks : GetBlocksRequest)
        (blocktree : GetBlocktreeRequest) (block : PubBlockRequest)
        (transaction : PubTransactionRequest)
        → let client = client_service connection in
          let service = state.app.service in
          (client.get_blocks blocks state
            ≡ outcome blocks_answer empty_blocks_response
                (wrap_get_blocks_request blocks)
                state
                (traits.rpc.get_blocks blocks service))
          × (client.get_blocktree blocktree state
              ≡ outcome blocktree_answer empty_blocktree_response
                  (wrap_get_blocktree_request blocktree)
                  state
                  (traits.rpc.get_blocktree blocktree service))
          × (client.pub_block block state
              ≡ outcome block_answer PubStatus.invalid
                  (wrap_pub_block_request block)
                  state
                  (traits.rpc.pub_block block service))
          × (client.pub_transaction transaction state
              ≡ outcome transaction_answer empty_transaction_response
                  (wrap_pub_transaction_request transaction)
                  state
                  (traits.rpc.pub_transaction transaction service))
    unfolding client_service Client.get_blocks Client.get_blocktree Client.pub_block
        Client.pub_transaction dispatch call wrap_get_blocks_request wrap_get_blocktree_request
        wrap_pub_block_request wrap_pub_transaction_request
    client_service-outcome state blocks blocktree block transaction = (
      call-outcome blocks_answer (λ r. get_or r.get_blocks empty_blocks_response)
          (wrap_get_blocks_request blocks) (traits.rpc.get_blocks blocks) state _ (λ a. refl) refl
          refl,
      call-outcome blocktree_answer (λ r. get_or r.get_blocktree empty_blocktree_response)
          (wrap_get_blocktree_request blocktree) (traits.rpc.get_blocktree blocktree) state _
          (λ a. refl) refl refl,
      call-outcome block_answer (λ r. get_or r.pub_block PubStatus.invalid)
          (wrap_pub_block_request block) (traits.rpc.pub_block block) state _ (λ a. refl) refl refl,
      call-outcome transaction_answer (λ r. get_or r.pub_transaction empty_transaction_response)
          (wrap_pub_transaction_request transaction) (traits.rpc.pub_transaction transaction) state
          _ (λ a. refl) refl refl,
    )
