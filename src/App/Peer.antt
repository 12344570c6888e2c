-- ===== src/App/Peer.antt =====
-- `Peer` of app.rs: each request to a peer has a socket of its own, which is dropped once its
-- response has been read.
use ironcoin.Base.{Option, some, none, List, [], ◌∷◌, ◌++◌, Bytes}
use ironcoin.Base.Run
use ironcoin.Base.Run.{Run, ok, err, panic}
use ironcoin.Base.Action.{Action, lift, ◌>>=◌, ◌>>◌}
use ironcoin.App.Socket.{Nanomsg, Protocol, Received}
use ironcoin.Crypto.SecretKey.{SecretKey}
use ironcoin.Crypto.Sign.{sign_message}
use ironcoin.External.{Sodium}
use ironcoin.Message.Codecs.{Codecs}
use ironcoin.Message.Rpc.{
  GetBlocksRequest, GetBlocktreeRequest, PubBlockRequest, PubTransactionRequest, RpcRequest,
  RpcResponse, SignedRpcRequest,
}
use ironcoin.Service.Requests.{
  wrap_get_blocks_request, wrap_get_blocktree_request, wrap_pub_block_request,
  wrap_pub_transaction_request,
}

pub record Peer (Socket : Type 0) : Type 0 where
  pub endpoint : Bytes
  pub sockets : List Socket

unfoldable pub new : {Socket : Type 0} → Bytes → Peer Socket
new endpoint = record { endpoint = endpoint; sockets = [] }

-- The sockets of a peer after a read, in their order.
pub record Reading (World Socket : Type 0) : Type 0 where
  pub sockets : List Socket
  pub world : World

module _ ⦃sodium : Sodium⦄ ⦃codecs : Codecs⦄ where
  unfoldable pub make_signed_request : RpcRequest → Option SecretKey → Run SignedRpcRequest
  unfolding sign_message
  make_signed_request request none = ok (record { signature = none; request = some request })
  make_signed_request request (some key) =
      Run.◌>>=◌ (sign_message codecs.rpc_request key request)
        (λ signature. ok (record { signature = some signature.bytes; request = some request }))

  module _ {World Socket : Type 0} (nanomsg : Nanomsg World Socket) where
    -- A step on the sockets, for a peer.
    abbrev pub on_world : {A : Type 0} → Action World A → Action (Peer Socket × World) A
    on_world action (peer, world) = let (r, world') = action world in (r, (peer, world'))

    abbrev pub keep_socket : Socket → Action (Peer Socket × World) (Unit {0})
    keep_socket socket (peer, world) =
        (ok tt, (record peer { sockets = peer.sockets ++ socket ∷ [] }, world))

    unfoldable pub send : SignedRpcRequest → Action (Peer Socket × World) (Unit {0})
    send request state =
        (do
          socket ← on_world (nanomsg.socket Protocol.req)
          on_world (nanomsg.connect state.0.endpoint socket)
          request_bytes ← lift (codecs.signed_rpc_request.write_to_bytes request)
          on_world (nanomsg.nb_write request_bytes socket)
          keep_socket socket)
          state

    unfoldable pub sign_and_send :
        RpcRequest → Option SecretKey → Action (Peer Socket × World) (Unit {0})
    unfolding make_signed_request send
    sign_and_send request key = do
      signed_request ← lift (make_signed_request request key)
      send signed_request

    -- The loop of `recv`, with the sockets that had nothing to read. A response that does not parse
    -- leaves its socket in place.
    unfoldable pub recv_from :
        List Socket → List Socket → World → Run (Option RpcResponse) × Reading World Socket
    recv_from tried [] world = (ok none, record { sockets = tried; world = world })
    recv_from tried (socket ∷ rest) world =
        let (received, world') = nanomsg.nb_read_to_end socket world in
        elim received [
          | Received.got response_bytes ↦
              elim (codecs.rpc_response.parse_from_bytes response_bytes) [
                | ok response ↦
                    (ok (some response), record { sockets = tried ++ rest; world = world' })
                | err e ↦ (err e, record { sockets = tried ++ socket ∷ rest; world = world' })
                | panic p ↦ (panic p, record { sockets = tried ++ socket ∷ rest; world = world' })
              ]
          | Received.try_again ↦ recv_from (tried ++ socket ∷ []) rest world'
          | Received.failed e ↦ (err e, record { sockets = tried ++ rest; world = world' })
        ]

    unfoldable pub recv : Action (Peer Socket × World) (Option RpcResponse)
    unfolding recv_from
    recv (peer, world) =
        let (r, after) = recv_from [] peer.sockets world in
        (r, (record peer { sockets = after.sockets }, after.world))

    unfoldable pub async_get_blocks :
        GetBlocksRequest → Option SecretKey → Action (Peer Socket × World) (Unit {0})
    unfolding sign_and_send wrap_get_blocks_request
    async_get_blocks request key = sign_and_send (wrap_get_blocks_request request) key

    unfoldable pub async_get_blocktree :
        GetBlocktreeRequest → Option SecretKey → Action (Peer Socket × World) (Unit {0})
    unfolding sign_and_send wrap_get_blocktree_request
    async_get_blocktree request key = sign_and_send (wrap_get_blocktree_request request) key

    unfoldable pub async_pub_block :
        PubBlockRequest → Option SecretKey → Action (Peer Socket × World) (Unit {0})
    unfolding sign_and_send wrap_pub_block_request
    async_pub_block request key = sign_and_send (wrap_pub_block_request request) key

    unfoldable pub async_pub_transaction :
        PubTransactionRequest → Option SecretKey → Action (Peer Socket × World) (Unit {0})
    unfolding sign_and_send wrap_pub_transaction_request
    async_pub_transaction request key = sign_and_send (wrap_pub_transaction_request request) key
