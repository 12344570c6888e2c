-- ===== src/Tests/Wire.antt =====
-- Codecs that can be computed, for the messages between nodes.
use ironcoin.Base.{ℕ, zero, suc, ◌≡◌, refl}
use ironcoin.Message.Rpc.{
  GetBlocksRequest, GetBlocksResponse, GetBlocktreeRequest, GetBlocktreeResponse, Method,
  PubBlockRequest, PubTransactionRequest, PubTransactionResponse, RpcRequest, RpcResponse,
  SignedRpcRequest,
}
use ironcoin.Tests.Coder.{Coder, along, list, num, option, pair}
use ironcoin.Tests.Statuses.{blocks_status, blocktree_status, error, pub_status, rpc_status}
use ironcoin.Tests.Messages.{bytes, hashed_block, transaction}

abbrev pub number_of : Method → ℕ
number_of Method.invalid = 0
number_of Method.get_blocks = 1
number_of Method.get_blocktree = 2
number_of Method.pub_block = 3
number_of Method.pub_transaction = 4

abbrev pub method_of : ℕ → Method
method_of (suc zero) = Method.get_blocks
method_of (suc (suc zero)) = Method.get_blocktree
method_of (suc (suc (suc zero))) = Method.pub_block
method_of (suc (suc (suc (suc zero)))) = Method.pub_transaction
method_of _ = Method.invalid

pub method_of-number_of : (m : Method) → method_of (number_of m) ≡ m
method_of-number_of Method.invalid = refl
method_of-number_of Method.get_blocks = refl
method_of-number_of Method.get_blocktree = refl
method_of-number_of Method.pub_block = refl
method_of-number_of Method.pub_transaction = refl

abbrev method : Coder Method
method = along num method_of number_of method_of-number_of

abbrev get_blocks_request : Coder GetBlocksRequest
get_blocks_request = along (list bytes) (λ b. record { blocks = b }) (λ r. r.blocks) (λ r. refl)

abbrev get_blocktree_request : Coder GetBlocktreeRequest
get_blocktree_request =
    along (option num) (λ h. record { start_height = h }) (λ r. r.start_height) (λ r. refl)

abbrev pub_block_request : Coder PubBlockRequest
pub_block_request =
    along (option hashed_block) (λ b. record { block = b }) (λ r. r.block) (λ r. refl)

abbrev pub_transaction_request : Coder PubTransactionRequest
pub_transaction_request =
    along (option transaction) (λ t. record { transaction = t }) (λ r. r.transaction) (λ r. refl)

abbrev pub rpc_request : Coder RpcRequest
rpc_request =
    along
      (pair (option method) (
        pair (option get_blocks_request) (
          pair (option get_blocktree_request)
            (pair (option pub_block_request) (option pub_transaction_request)))))
      (λ (m, (b, (t, (p, x)))). record {
        method = m;
        get_blocks = b;
        get_blocktree = t;
        pub_block = p;
        pub_transaction = x;
      })
      (λ r. (r.method, (r.get_blocks, (r.get_blocktree, (r.pub_block, r.pub_transaction)))))
      (λ r. refl)

abbrev pub signed_rpc_request : Coder SignedRpcRequest
signed_rpc_request =
    along (pair (option bytes) (option rpc_request))
      (λ (s, r). record { signature = s; request = r }) (λ s. (s.signature, s.request)) (λ s. refl)

abbrev get_blocktree_response : Coder GetBlocktreeResponse
get_blocktree_response =
    along
      (pair blocktree_status (
        pair (option error)
          (pair (option bytes) (pair (option num) (pair (option num) (list bytes))))))
      (λ (t, (d, (h, (n, (s, a))))). record {
        status = t;
        description = d;
        head = h;
        head_height = n;
        start_height = s;
        ancestors = a;
      })
      (λ r. (r.status, (r.description, (r.head, (r.head_height, (r.start_height, r.ancestors))))))
      (λ r. refl)

abbrev get_blocks_response : Coder GetBlocksResponse
get_blocks_response =
    along (pair blocks_status (pair (option error) (list hashed_block)))
      (λ (s, (d, b)). record { status = s; description = d; blocks = b })
      (λ r. (r.status, (r.description, r.blocks))) (λ r. refl)

abbrev pub_transaction_response : Coder PubTransactionResponse
pub_transaction_response =
    along (pair pub_status (option error)) (λ (s, d). record { status = s; description = d })
      (λ r. (r.status, r.description)) (λ r. refl)

abbrev pub rpc_response : Coder RpcResponse
rpc_response =
    along
      (pair (option rpc_status) (
        pair (option signed_rpc_request) (
          pair (option get_blocks_response) (
            pair (option get_blocktree_response)
              (pair (option pub_status) (option pub_transaction_response))))))
      (λ (s, (o, (b, (t, (p, x))))). record {
        status = s;
        original_request = o;
        get_blocks = b;
        get_blocktree = t;
        pub_block = p;
        pub_transaction = x;
      })
      (λ r. (
        r.status,
        (r.original_request, (r.get_blocks, (r.get_blocktree, (r.pub_block, r.pub_transaction)))),
      ))
      (λ r. refl)
