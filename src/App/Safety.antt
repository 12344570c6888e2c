-- ===== src/App/Safety.antt =====
-- What a request from a peer or a client can change in the application of app.rs.
use ironcoin.Service.Settled.{IsSettled, same-IsSettled, pub_transaction-IsSettled}
use ironcoin.Base.{◌≡◌, refl, sym, subst, Bytes, inl, inr}
use ironcoin.Base.Run.{Run, ok, err, panic, Run-cases}
use ironcoin.Base.Action.{Action, and_then, pure}
use ironcoin.App.Dispatch.{call, dispatch, handle_raw_rpc_request}
use ironcoin.App.State.{Application, on_service}
use ironcoin.External.{Base64, Sodium}
use ironcoin.Message.Codecs.{Codecs}
use ironcoin.Message.Rpc.{
  Method, RpcRequest, get_method, get_request, take_get_blocks, take_get_blocktree, take_pub_block,
  take_pub_transaction, blocks_answer, blocktree_answer, block_answer, transaction_answer,
}
use ironcoin.Service.Answers.{get_blocks, get_blocktree, pub_block}
use ironcoin.Service.Pending.{pub_transaction}
use ironcoin.Service.State.{IroncService, read_blocktree}
use ironcoin.Service.Traits.{rpc_service}
use ironcoin.Store.{KeyValueStore}

-- A state after a call, whose answer is passed on.
state-pure : {S A B : Type 0} (p : Run A × S) (f : A → B) → (and_then p (λ a. pure (f a))).1 ≡ p.1
state-pure (ok a, s) f = refl
state-pure (err e, s) f = refl
state-pure (panic c, s) f = refl

module _ {S Socket : Type 0} (kv : KeyValueStore S) ⦃sodium : Sodium⦄ ⦃base64 : Base64⦄
    ⦃codecs : Codecs⦄ where
  module _ {World Socket' : Type 0} where
    -- Everything but the pending transactions stays.
    pub record IsAnswering (app app' : Application (IroncService S Socket) World Socket')
        : Type 0 where
      pub service : IsSettled app.service app'.service
      pub rest : app' ≡ record app { service = app'.service }

    wrapped-IsAnswering :
        {A B : Type 0} (action : Action (IroncService S Socket) A) (f : A → B)
        (app : Application (IroncService S Socket) World Socket')
        → IsSettled app.service (action app.service).1
        → IsAnswering app (and_then (on_service action app) (λ a. pure (f a))).1
    wrapped-IsAnswering action f app i =
        subst (λ (app' : Application (IroncService S Socket) World Socket'). IsAnswering app app')
          (sym (state-pure (on_service action app) f)) (record { service = i; rest = refl })

    call-IsAnswering :
        (method : Method) (request : RpcRequest)
        (app : Application (IroncService S Socket) World Socket')
        → IsAnswering app (call (rpc_service kv) method request app).1
    unfolding call rpc_service
    call-IsAnswering Method.invalid request app = record {
      service = same-IsSettled app.service;
      rest = refl;
    }
    call-IsAnswering Method.get_blocks request app =
        wrapped-IsAnswering (read_blocktree (get_blocks kv (take_get_blocks request))) blocks_answer
          app (same-IsSettled app.service)
    call-IsAnswering Method.get_blocktree request app =
        wrapped-IsAnswering (read_blocktree (get_blocktree kv (take_get_blocktree request)))
          blocktree_answer app (same-IsSettled app.service)
    call-IsAnswering Method.pub_block request app =
        wrapped-IsAnswering (read_blocktree (pub_block kv (take_pub_block request))) block_answer
          app (same-IsSettled app.service)
    call-IsAnswering Method.pub_transaction request app =
        wrapped-IsAnswering (pub_transaction kv (take_pub_transaction request)) transaction_answer
          app (pub_transaction-IsSettled kv (take_pub_transaction request) app.service)

    -- Whatever bytes arrive as a request, and whatever the answer, an error included: the block
    -- tree, the published heads, the staker, the peers and their sockets stay as they are. Only the
    -- pending transactions may change.
    pub handle_raw_rpc_request-IsAnswering :
        (raw_request : Bytes) (app : Application (IroncService S Socket) World Socket')
        → IsAnswering app (handle_raw_rpc_request (rpc_service kv) raw_request app).1
    unfolding handle_raw_rpc_request dispatch
    handle_raw_rpc_request-IsAnswering raw_request app =
        elim (Run-cases (codecs.signed_rpc_request.parse_from_bytes raw_request)) [
          | inr (inl e, refused) ↦
              rw (refused, handle_raw_rpc_request)
                (record { service = same-IsSettled app.service; rest = refl })
          | inr (inr p, refused) ↦
              rw (refused, handle_raw_rpc_request)
                (record { service = same-IsSettled app.service; rest = refl })
          | inl (signed, parsed) ↦
              rw (parsed, handle_raw_rpc_request)
                (subst
                  (λ (app' : Application (IroncService S Socket) World Socket').
                    IsAnswering app app')
                  (sym (state-pure (dispatch (rpc_service kv) (get_request signed) app) _))
                  (call-IsAnswering (get_method (get_request signed)) (get_request signed) app))
        ]
