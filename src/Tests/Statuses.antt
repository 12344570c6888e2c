-- ===== src/Tests/Statuses.antt =====
-- Codecs that can be computed, for the errors and the statuses in responses.
use ironcoin.Base.{ℕ, zero, suc, ◌≡◌, refl, List, [], ◌∷◌, Bytes}
use ironcoin.Base.Run.{IroncError}
use ironcoin.Message.Rpc.{BlocksStatus, BlocktreeStatus, PubStatus, RpcStatus}
use ironcoin.Tests.Coder.{Coder, along, num, pair}
use ironcoin.Tests.Messages.{bytes}

-- The item at an index, or the one that is given.
abbrev nth {ℓ} : {A : Type ℓ} → ℕ → A → List A → A
nth n last [] = last
nth zero last (x ∷ xs) = x
nth (suc n) last (x ∷ xs) = nth n last xs

-- A tag, and the fields of any error.
abbrev Parts : Type 0
Parts = ℕ × (ℕ × (ℕ × (ℕ × (ℕ × (Bytes × Bytes)))))

abbrev error_of : Parts → IroncError
error_of (tag, (k, (l, (m, (n, (a, b)))))) = nth tag (IroncError.external a) (
    IroncError.invalid_length k l
    ∷ IroncError.patch_mismatch k l m n
    ∷ IroncError.wrong_op_number a k l
    ∷ IroncError.not_enough_funds k l a b
    ∷ IroncError.missing_key
    ∷ IroncError.invalid_source_key
    ∷ IroncError.invalid_signature
    ∷ IroncError.invalid_hash a b
    ∷ IroncError.bounty_in_genesis
    ∷ IroncError.genesis_transactions
    ∷ IroncError.no_genesis
    ∷ IroncError.other_genesis a b
    ∷ IroncError.unknown_head a
    ∷ IroncError.previous_missing a
    ∷ IroncError.patch_missing a
    ∷ IroncError.staked_previous_missing a
    ∷ IroncError.invalid_height k l
    ∷ IroncError.unknown_block a
    ∷ IroncError.not_a_transfer
    ∷ IroncError.not_a_payment
    ∷ IroncError.not_a_key
    ∷ IroncError.no_peers
    ∷ IroncError.unknown_source a
    ∷ IroncError.unknown_destination a
    ∷ IroncError.ambiguous_address a
    ∷ IroncError.not_an_address a
    ∷ IroncError.not_an_amount a
    ∷ [])

abbrev parts_of : IroncError → Parts
parts_of (IroncError.invalid_length k l) = (0, (k, (l, (0, (0, ([], []))))))
parts_of (IroncError.patch_mismatch k l m n) = (1, (k, (l, (m, (n, ([], []))))))
parts_of (IroncError.wrong_op_number a k l) = (2, (k, (l, (0, (0, (a, []))))))
parts_of (IroncError.not_enough_funds k l a b) = (3, (k, (l, (0, (0, (a, b))))))
parts_of IroncError.missing_key = (4, (0, (0, (0, (0, ([], []))))))
parts_of IroncError.invalid_source_key = (5, (0, (0, (0, (0, ([], []))))))
parts_of IroncError.invalid_signature = (6, (0, (0, (0, (0, ([], []))))))
parts_of (IroncError.invalid_hash a b) = (7, (0, (0, (0, (0, (a, b))))))
parts_of IroncError.bounty_in_genesis = (8, (0, (0, (0, (0, ([], []))))))
parts_of IroncError.genesis_transactions = (9, (0, (0, (0, (0, ([], []))))))
parts_of IroncError.no_genesis = (10, (0, (0, (0, (0, ([], []))))))
parts_of (IroncError.other_genesis a b) = (11, (0, (0, (0, (0, (a, b))))))
parts_of (IroncError.unknown_head a) = (12, (0, (0, (0, (0, (a, []))))))
parts_of (IroncError.previous_missing a) = (13, (0, (0, (0, (0, (a, []))))))
parts_of (IroncError.patch_missing a) = (14, (0, (0, (0, (0, (a, []))))))
parts_of (IroncError.staked_previous_missing a) = (15, (0, (0, (0, (0, (a, []))))))
parts_of (IroncError.invalid_height k l) = (16, (k, (l, (0, (0, ([], []))))))
parts_of (IroncError.unknown_block a) = (17, (0, (0, (0, (0, (a, []))))))
parts_of IroncError.not_a_transfer = (18, (0, (0, (0, (0, ([], []))))))
parts_of IroncError.not_a_payment = (19, (0, (0, (0, (0, ([], []))))))
parts_of IroncError.not_a_key = (20, (0, (0, (0, (0, ([], []))))))
parts_of IroncError.no_peers = (21, (0, (0, (0, (0, ([], []))))))
parts_of (IroncError.unknown_source a) = (22, (0, (0, (0, (0, (a, []))))))
parts_of (IroncError.unknown_destination a) = (23, (0, (0, (0, (0, (a, []))))))
parts_of (IroncError.ambiguous_address a) = (24, (0, (0, (0, (0, (a, []))))))
parts_of (IroncError.not_an_address a) = (25, (0, (0, (0, (0, (a, []))))))
parts_of (IroncError.not_an_amount a) = (26, (0, (0, (0, (0, (a, []))))))
parts_of (IroncError.external a) = (27, (0, (0, (0, (0, (a, []))))))

pub error_of-parts_of : (e : IroncError) → error_of (parts_of e) ≡ e
error_of-parts_of (IroncError.invalid_length k l) = refl
error_of-parts_of (IroncError.patch_mismatch k l m n) = refl
error_of-parts_of (IroncError.wrong_op_number a k l) = refl
error_of-parts_of (IroncError.not_enough_funds k l a b) = refl
error_of-parts_of IroncError.missing_key = refl
error_of-parts_of IroncError.invalid_source_key = refl
error_of-parts_of IroncError.invalid_signature = refl
error_of-parts_of (IroncError.invalid_hash a b) = refl
error_of-parts_of IroncError.bounty_in_genesis = refl
error_of-parts_of IroncError.genesis_transactions = refl
error_of-parts_of IroncError.no_genesis = refl
error_of-parts_of (IroncError.other_genesis a b) = refl
error_of-parts_of (IroncError.unknown_head a) = refl
error_of-parts_of (IroncError.previous_missing a) = refl
error_of-parts_of (IroncError.patch_missing a) = refl
error_of-parts_of (IroncError.staked_previous_missing a) = refl
error_of-parts_of (IroncError.invalid_height k l) = refl
error_of-parts_of (IroncError.unknown_block a) = refl
error_of-parts_of IroncError.not_a_transfer = refl
error_of-parts_of IroncError.not_a_payment = refl
error_of-parts_of IroncError.not_a_key = refl
error_of-parts_of IroncError.no_peers = refl
error_of-parts_of (IroncError.unknown_source a) = refl
error_of-parts_of (IroncError.unknown_destination a) = refl
error_of-parts_of (IroncError.ambiguous_address a) = refl
error_of-parts_of (IroncError.not_an_address a) = refl
error_of-parts_of (IroncError.not_an_amount a) = refl
error_of-parts_of (IroncError.external a) = refl

abbrev pub error : Coder IroncError
error =
    along (pair num (pair num (pair num (pair num (pair num (pair bytes bytes)))))) error_of
      parts_of error_of-parts_of

abbrev blocks_status_of : ℕ → BlocksStatus
blocks_status_of n =
    nth n BlocksStatus.invalid
      (BlocksStatus.ok ∷ BlocksStatus.invalid_hash ∷ BlocksStatus.unknown_block ∷ [])

abbrev number_of_blocks_status : BlocksStatus → ℕ
number_of_blocks_status BlocksStatus.ok = 0
number_of_blocks_status BlocksStatus.invalid_hash = 1
number_of_blocks_status BlocksStatus.unknown_block = 2
number_of_blocks_status BlocksStatus.invalid = 3

pub blocks_status_of-number_of_blocks_status :
    (s : BlocksStatus) → blocks_status_of (number_of_blocks_status s) ≡ s
blocks_status_of-number_of_blocks_status BlocksStatus.ok = refl
blocks_status_of-number_of_blocks_status BlocksStatus.invalid_hash = refl
blocks_status_of-number_of_blocks_status BlocksStatus.unknown_block = refl
blocks_status_of-number_of_blocks_status BlocksStatus.invalid = refl

abbrev pub blocks_status : Coder BlocksStatus
blocks_status =
    along num blocks_status_of number_of_blocks_status blocks_status_of-number_of_blocks_status

abbrev pub_status_of : ℕ → PubStatus
pub_status_of n =
    nth n PubStatus.invalid
      (PubStatus.ok ∷ PubStatus.invalid_request ∷ PubStatus.invalid_block ∷ [])

abbrev number_of_pub_status : PubStatus → ℕ
number_of_pub_status PubStatus.ok = 0
number_of_pub_status PubStatus.invalid_request = 1
number_of_pub_status PubStatus.invalid_block = 2
number_of_pub_status PubStatus.invalid = 3

pub pub_status_of-number_of_pub_status :
    (s : PubStatus) → pub_status_of (number_of_pub_status s) ≡ s
pub_status_of-number_of_pub_status PubStatus.ok = refl
pub_status_of-number_of_pub_status PubStatus.invalid_request = refl
pub_status_of-number_of_pub_status PubStatus.invalid_block = refl
pub_status_of-number_of_pub_status PubStatus.invalid = refl

abbrev pub pub_status : Coder PubStatus
pub_status = along num pub_status_of number_of_pub_status pub_status_of-number_of_pub_status

abbrev rpc_status_of : ℕ → RpcStatus
rpc_status_of n = nth n RpcStatus.invalid (
    RpcStatus.ok ∷ RpcStatus.invalid_message ∷ RpcStatus.invalid_method
    ∷ RpcStatus.request_limit_reached ∷ RpcStatus.internal_error ∷ [])

abbrev number_of_rpc_status : RpcStatus → ℕ
number_of_rpc_status RpcStatus.ok = 0
number_of_rpc_status RpcStatus.invalid_message = 1
number_of_rpc_status RpcStatus.invalid_method = 2
number_of_rpc_status RpcStatus.request_limit_reached = 3
number_of_rpc_status RpcStatus.internal_error = 4
number_of_rpc_status RpcStatus.invalid = 5

pub rpc_status_of-number_of_rpc_status :
    (s : RpcStatus) → rpc_status_of (number_of_rpc_status s) ≡ s
rpc_status_of-number_of_rpc_status RpcStatus.ok = refl
rpc_status_of-number_of_rpc_status RpcStatus.invalid_message = refl
rpc_status_of-number_of_rpc_status RpcStatus.invalid_method = refl
rpc_status_of-number_of_rpc_status RpcStatus.request_limit_reached = refl
rpc_status_of-number_of_rpc_status RpcStatus.internal_error = refl
rpc_status_of-number_of_rpc_status RpcStatus.invalid = refl

abbrev pub rpc_status : Coder RpcStatus
rpc_status = along num rpc_status_of number_of_rpc_status rpc_status_of-number_of_rpc_status

abbrev blocktree_status_of : ℕ → BlocktreeStatus
blocktree_status_of n =
    nth n BlocktreeStatus.invalid (BlocktreeStatus.ok ∷ BlocktreeStatus.invalid_request ∷ [])

abbrev number_of_blocktree_status : BlocktreeStatus → ℕ
number_of_blocktree_status BlocktreeStatus.ok = 0
number_of_blocktree_status BlocktreeStatus.invalid_request = 1
number_of_blocktree_status BlocktreeStatus.invalid = 2

pub blocktree_status_of-number_of_blocktree_status :
    (s : BlocktreeStatus) → blocktree_status_of (number_of_blocktree_status s) ≡ s
blocktree_status_of-number_of_blocktree_status BlocktreeStatus.ok = refl
blocktree_status_of-number_of_blocktree_status BlocktreeStatus.invalid_request = refl
blocktree_status_of-number_of_blocktree_status BlocktreeStatus.invalid = refl

abbrev pub blocktree_status : Coder BlocktreeStatus
blocktree_status =
    along num blocktree_status_of number_of_blocktree_status
      blocktree_status_of-number_of_blocktree_status
