-- ===== src/App/Handled.antt =====
-- The handlers of app.rs on the service of service.rs, in any order: the block tree stays well
-- formed.
use ironcoin.App.Unserved.{
  SameService, headed-SameService, on_peer-SameService, probed-SameService, after_reply-SameService,
}
use ironcoin.Base.{ℕ, ◌≡◌, refl, sym, ap, subst, some, none, Bytes, length, inl, inr, get_or}
use ironcoin.Base.Run.{ok, Run-cases}
use ironcoin.Base.Action.{Action}
use ironcoin.App.Dispatch.{handle_raw_rpc_request}
use ironcoin.App.Follow.{
  handle_new_head_block, handle_peer_response, handle_timeout, probe_network_state, reply_to,
  try_staking_a_new_block, reply_by,
}
use ironcoin.App.Peer.{recv}
use ironcoin.App.Safety.{handle_raw_rpc_request-IsAnswering}
use ironcoin.App.Socket.{Nanomsg}
use ironcoin.App.State.{Application, on_peer}
use ironcoin.Block.{decode_hash}
use ironcoin.Blocktree.Insertion.{HasRoom, IsFresh}
use ironcoin.Blocktree.Laws.{HasLaws}
use ironcoin.Blocktree.Reach.{Continues, Continues-trans, same-Continues}
use ironcoin.Blocktree.Tree.{IsTree, States}
use ironcoin.Crypto.HashDigest.{HashDigest}
use ironcoin.External.{Base64, Sodium}
use ironcoin.Message.Codecs.{Codecs}
use ironcoin.Message.Ledger.{HashedBlock}
use ironcoin.Message.Rpc.{
  Method, RpcResponse, empty_blocks_response, get_method, get_original_request, get_request,
}
use ironcoin.Service.Heads.{make_staked_block}
use ironcoin.Service.Incoming.{AreNew, HasRoomFor}
use ironcoin.Service.Received.{on_received_peer_blocks-IsCaughtUp}
use ironcoin.Service.Staked.{on_successful_stake-IsStaked}
use ironcoin.Service.State.{IroncService}
use ironcoin.Service.Traits.{head_block_pub_service, rpc_service, staker_service, sync_blocktree}
use ironcoin.Staking.{BlockTemplate, stake_interval, staking_interval}
use ironcoin.Store.{KeyValueStore}

module _ {S Pub World Socket : Type 0} (kv : KeyValueStore S)
    (nb_write : Bytes → Action Pub (Unit {0})) (nanomsg : Nanomsg World Socket) ⦃sodium : Sodium⦄
    ⦃base64 : Base64⦄ ⦃codecs : Codecs⦄ where
  abbrev pub Node : Type 0
  Node = Application (IroncService S Pub) World Socket

  -- The blocks of a response to `get_blocks` are new, and have room.
  abbrev pub AreExpected : Node → RpcResponse → Type 0
  AreExpected node response =
      let blocks = (get_or response.get_blocks empty_blocks_response).blocks in
      HasRoomFor kv (length blocks) node.service.blocktree × AreNew kv node.service.blocktree blocks

  -- A block that is staked at a time is new, and has room.
  abbrev pub IsExpected : Node → ℕ → Type 0
  IsExpected node now =
      HasRoom kv node.service.blocktree
      × ((template : BlockTemplate) (block : HashedBlock) (h : HashDigest)
          → (stake_interval now staking_interval node.staker).0 ≡ ok (some template)
          → (make_staked_block kv template node.service).0 ≡ ok block
          → decode_hash block ≡ ok h
          → IsFresh kv node.service.blocktree h)

  -- One call of a handler, whatever it answers.
  pub data Handles : Node → Node → Type 0 where
    requested :
        (raw_request : Bytes) {node node' : Node}
        → (handle_raw_rpc_request (rpc_service kv) raw_request node).1 ≡ node'
        → Handles node node'
    headed :
        (head : HashedBlock) {node node' : Node}
        → (handle_new_head_block head node).1 ≡ node'
        → Handles node node'
    read :
        (index : ℕ) {node node' : Node}
        → (on_peer index (recv nanomsg) node).1 ≡ node'
        → Handles node node'
    responded :
        (index : ℕ) (response : RpcResponse) {node node' : Node}
        → AreExpected node response
        → (handle_peer_response nanomsg (sync_blocktree kv) index response node).1 ≡ node'
        → Handles node node'
    probed :
        {node node' : Node}
        → (probe_network_state nanomsg (head_block_pub_service kv) node).1 ≡ node'
        → Handles node node'
    timed_out :
        (now : ℕ) {node node' : Node}
        → IsExpected node now
        → (handle_timeout (staker_service kv nb_write) now node).1 ≡ node'
        → Handles node node'

  pub data Runs : Node → Node → Type 0 where
    done : {node : Node} → Runs node node
    next : {a b c : Node} → Handles a b → Runs b c → Runs a c

  module _ (laws : HasLaws kv) (genesis head : HashDigest) (state : States) where
    abbrev Goes : Node → Node → Type 0
    Goes node node' = Continues kv node.service.blocktree genesis state node'.service.blocktree

    same-Goes :
        (node node' : Node)
        → IsTree kv node.service.blocktree genesis head state
        → node'.service.blocktree ≡ node.service.blocktree
        → Goes node node'
    same-Goes node node' tree same =
        same-Continues kv laws node.service.blocktree node'.service.blocktree genesis head state
          tree (sym same)

    service-Goes :
        (node node' : Node)
        → IsTree kv node.service.blocktree genesis head state
        → SameService node node'
        → Goes node node'
    unfolding SameService
    service-Goes node node' tree same =
        same-Goes node node' tree (ap (λ (s : IroncService S Pub). s.blocktree) same)

    reply_to-Goes :
        (method : Method) (response : RpcResponse) (node : Node)
        → IsTree kv node.service.blocktree genesis head state
        → AreExpected node response
        → Goes node (reply_by (sync_blocktree kv) method response node).1
    unfolding sync_blocktree reply_by
    reply_to-Goes Method.get_blocks response node tree (room, new) =
        (on_received_peer_blocks-IsCaughtUp kv laws node.service.blocktree genesis head state
          (get_or response.get_blocks empty_blocks_response) tree room new).0
    reply_to-Goes Method.get_blocktree response node tree expected =
        same-Goes node (reply_by (sync_blocktree kv) Method.get_blocktree response node).1 tree refl
    reply_to-Goes Method.invalid response node tree expected = same-Goes node node tree refl
    reply_to-Goes Method.pub_block response node tree expected = same-Goes node node tree refl
    reply_to-Goes Method.pub_transaction response node tree expected = same-Goes node node tree refl

    responded-Goes :
        (index : ℕ) (response : RpcResponse) (node : Node)
        → IsTree kv node.service.blocktree genesis head state
        → AreExpected node response
        → Goes node (handle_peer_response nanomsg (sync_blocktree kv) index response node).1
    unfolding handle_peer_response reply_to SameService
    responded-Goes index response node tree expected =
        let method = get_method (get_request (get_original_request response)) in
        let reply = reply_by (sync_blocktree kv) method response node in
        subst
          (λ (s : IroncService S Pub).
            Continues kv node.service.blocktree genesis state s.blocktree)
          (sym (after_reply-SameService nanomsg index reply))
          (reply_to-Goes method response node tree expected)

    timed_out-Goes :
        (now : ℕ) (node : Node)
        → IsTree kv node.service.blocktree genesis head state
        → IsExpected node now
        → Goes node (handle_timeout (staker_service kv nb_write) now node).1
    unfolding handle_timeout try_staking_a_new_block staker_service
    timed_out-Goes now node tree (room, fresh) =
        let run = stake_interval now staking_interval node.staker in
        elim (Run-cases run.0) [
          | inr (inl c, e) ↦ rw e (same-Goes node (record node { staker = run.1 }) tree refl)
          | inr (inr c, e) ↦ rw e (same-Goes node (record node { staker = run.1 }) tree refl)
          | inl (none, e) ↦ rw e (same-Goes node (record node { staker = run.1 }) tree refl)
          | inl (some template, e) ↦
              rw e
                (on_successful_stake-IsStaked kv nb_write laws template node.service genesis head
                  state tree room (λ block h made named. fresh template block h e made named)).0
        ]

    Handles-Goes :
        (node node' : Node)
        → Handles node node'
        → IsTree kv node.service.blocktree genesis head state
        → Goes node node'
    Handles-Goes node node' (requested raw_request e) tree = subst (Goes node) e (
        same-Goes node (handle_raw_rpc_request (rpc_service kv) raw_request node).1 tree
          (handle_raw_rpc_request-IsAnswering kv raw_request node).service.blocktree)
    Handles-Goes node node' (headed block e) tree =
        subst (Goes node) e (service-Goes node _ tree (headed-SameService block node))
    Handles-Goes node node' (read index e) tree =
        subst (Goes node) e
          (service-Goes node _ tree (on_peer-SameService index (recv nanomsg) node))
    Handles-Goes node node' (responded index response expected e) tree =
        subst (Goes node) e (responded-Goes index response node tree expected)
    Handles-Goes node node' (probed e) tree =
        subst (Goes node) e
          (service-Goes node _ tree (probed-SameService nanomsg (head_block_pub_service kv) node))
    Handles-Goes node node' (timed_out now expected e) tree =
        subst (Goes node) e (timed_out-Goes now node tree expected)

  -- However the handlers of the event loop are called, one after the other: requests with any
  -- bytes, new heads, reads from peers, responses of peers, probes and timeouts. Whatever they
  -- answer, a well-formed block tree stays one and keeps every block with the balances at it. The
  -- blocks of a response, and the block that a timeout stakes, are ones whose hashes are not in the
  -- tree, at a time when its heights leave room for them.
  pub Runs-Continues :
      (laws : HasLaws kv) (node node' : Node) (genesis head : HashDigest) (state : States)
      → Runs node node'
      → IsTree kv node.service.blocktree genesis head state
      → Continues kv node.service.blocktree genesis state node'.service.blocktree
  Runs-Continues laws node node' genesis head state done tree =
      same-Continues kv laws node.service.blocktree node.service.blocktree genesis head state tree
        refl
  Runs-Continues laws node node' genesis head state (next {b = middle} step rest) tree =
      let first = Handles-Goes laws genesis head state node middle step tree in
      Continues-trans kv node.service.blocktree middle.service.blocktree node'.service.blocktree
        genesis state first
        (Runs-Continues laws middle node' genesis first.head first.states rest first.tree)
