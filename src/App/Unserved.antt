-- ===== src/App/Unserved.antt =====
-- The handlers of app.rs that do not change the service of the node.
use ironcoin.Base.{ℕ, ◌≡◌, refl, some, none, Option, inl, inr}
use ironcoin.Base.Run.{Run, ok, err, panic, Run-cases}
use ironcoin.Base.Action.{Action, and_then, gets, pure, ◌>>=◌}
use ironcoin.App.Follow.{handle_new_head_block, probe_network_state}
use ironcoin.App.Peer.{Peer, sign_and_send}
use ironcoin.App.Socket.{Nanomsg}
use ironcoin.App.State.{Application, on_peer}
use ironcoin.Block.{decode_hash}
use ironcoin.External.{Sodium}
use ironcoin.Message.Codecs.{Codecs}
use ironcoin.Message.Ledger.{HashedBlock}
use ironcoin.Message.Rpc.{RpcRequest}
use ironcoin.Service.Traits.{HeadBlockPubService}

module _ {Service World Socket : Type 0} ⦃sodium : Sodium⦄ where
  unfoldable pub SameService :
      Application Service World Socket → Application Service World Socket → Type 0
  SameService node node' = node'.service ≡ node.service

  pub headed-SameService :
      (head : HashedBlock) (node : Application Service World Socket)
      → SameService node (handle_new_head_block head node).1
  unfolding SameService handle_new_head_block
  headed-SameService head node = elim (Run-cases (decode_hash head)) [
    | inl (h, e) ↦ rw e refl
    | inr (inl c, e) ↦ rw e refl
    | inr (inr c, e) ↦ rw e refl
  ]

  pub on_peer-SameService :
      {A : Type 0} (index : ℕ) (action : Action (Peer Socket × World) A)
      (node : Application Service World Socket)
      → SameService node (on_peer index action node).1
  unfolding SameService on_peer
  on_peer-SameService index action node = refl

  module _ (nanomsg : Nanomsg World Socket) ⦃codecs : Codecs⦄ where
    pub probed-SameService :
        (head : HeadBlockPubService Service) (node : Application Service World Socket)
        → SameService node (probe_network_state nanomsg head node).1
    unfolding SameService probe_network_state
    probed-SameService head node = elim (Run-cases (head.current_head_block node.service)) [
      | inl (h, e) ↦ rw e refl
      | inr (inl c, e) ↦ rw e refl
      | inr (inr c, e) ↦ rw e refl
    ]

    -- What `handle_peer_response` does with the reply of the service.
    pub after_reply-SameService :
        (index : ℕ) (reply : Run (Option RpcRequest) × Application Service World Socket)
        → SameService reply.1
            (and_then reply (λ maybe_reply. gets (λ app. app.app_secret_key) >>= (λ key.
              elim maybe_reply [
                | some request ↦ on_peer index (sign_and_send nanomsg request (some key))
                | none ↦ pure tt
              ]))).1
    unfolding SameService
    after_reply-SameService index (ok (some request), node) =
        on_peer-SameService index (sign_and_send nanomsg request (some node.app_secret_key)) node
    after_reply-SameService index (ok none, node) = refl
    after_reply-SameService index (err e, node) = refl
    after_reply-SameService index (panic p, node) = refl
