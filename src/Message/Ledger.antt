-- ===== src/Message/Ledger.antt =====
-- The ledger, diff and wallet messages of ironcoin_pb.proto.
use ironcoin.Base.{
  ℕ, ◌≡◌, ◌↔◌, Bool, true, ◌&&◌, Option, none, some, List, [], Bytes, PartialEq, ◌==◌, nat_eq,
  option_eq, option_beq, option_beq_iff, get_or, arith,
}

-- The getters of a scalar and of a `bytes` field.
abbrev pub get_num : Option ℕ → ℕ
get_num field = get_or field 0

abbrev pub get_bytes : Option Bytes → Bytes
get_bytes field = get_or field []

pub record Transfer : Type 0 where
  pub op_index : Option ℕ
  pub tokens : Option ℕ
  pub source_pk : Option Bytes
  pub destination_pk : Option Bytes

pub record Commitment : Type 0 where
  pub bounty_pk : Option Bytes
  pub bounty : Option ℕ
  pub transfers : List Transfer

abbrev pub empty_commitment : Commitment
empty_commitment = record { bounty_pk = none; bounty = none; transfers = [] }

pub record DetachedSignature : Type 0 where
  pub public_key : Option Bytes
  pub payload : Option Bytes

pub record Transaction : Type 0 where
  pub signatures : List DetachedSignature
  pub commit : Option Commitment

abbrev pub get_commit : Transaction → Commitment
get_commit tx = get_or tx.commit empty_commitment

abbrev pub get_transfers : Transaction → List Transfer
get_transfers tx = (get_commit tx).transfers

-- `timestamp` is an `int64`, by its bit pattern below 2 ^ 64.
pub record Block : Type 0 where
  pub staker_pk : Option Bytes
  pub previous : Option Bytes
  pub timestamp : Option ℕ
  pub height : Option ℕ
  pub target_hash : Option Bytes
  pub transactions : List Transaction

abbrev pub empty_block : Block
empty_block = record {
  staker_pk = none;
  previous = none;
  timestamp = none;
  height = none;
  target_hash = none;
  transactions = [];
}

pub record SignedBlock : Type 0 where
  pub signature : Option Bytes
  pub block : Option Block

abbrev pub empty_signed_block : SignedBlock
empty_signed_block = record { signature = none; block = none }

pub record HashedBlock : Type 0 where
  pub hash : Option Bytes
  pub signed_block : Option SignedBlock

abbrev pub empty_hashed_block : HashedBlock
empty_hashed_block = record { hash = none; signed_block = none }

abbrev pub get_signed_block : HashedBlock → SignedBlock
get_signed_block b = get_or b.signed_block empty_signed_block

abbrev pub get_inner_block : SignedBlock → Block
get_inner_block b = get_or b.block empty_block

pub record Balance : Type 0 where
  pub tokens : Option ℕ
  pub op_index : Option ℕ

abbrev pub empty_balance : Balance
empty_balance = record { tokens = none; op_index = none }

-- `Balance::new()` with both fields set.
abbrev pub new_balance : ℕ → ℕ → Balance
new_balance tokens op_index = record { tokens = some tokens; op_index = some op_index }

unfoldable pub balance_beq : Balance → Balance → Bool
unfolding option_beq
balance_beq a b = a.tokens == b.tokens && a.op_index == b.op_index

pub balance_beq_iff : (a b : Balance) → (balance_beq a b ≡ true) ↔ (a ≡ b)
unfolding balance_beq
balance_beq_iff a b =
    ground (arith, option_beq_iff a.tokens b.tokens, option_beq_iff a.op_index b.op_index)

instance abbrev pub balance_eq : PartialEq Balance
balance_eq = record { equal = balance_beq; equal_iff = balance_beq_iff }

pub record BalancePatch : Type 0 where
  pub public_key : Option Bytes
  pub before : Option Balance
  pub after : Option Balance

abbrev pub get_before : BalancePatch → Balance
get_before patch = get_or patch.before empty_balance

abbrev pub get_after : BalancePatch → Balance
get_after patch = get_or patch.after empty_balance

-- A new patch with its three fields set.
abbrev pub new_patch : Bytes → Balance → Balance → BalancePatch
new_patch public_key before after = record {
  public_key = some public_key;
  before = some before;
  after = some after;
}

pub record BlockWithDiff : Type 0 where
  pub hashed_block : Option HashedBlock
  pub diff : List BalancePatch

abbrev pub empty_block_with_diff : BlockWithDiff
empty_block_with_diff = record { hashed_block = none; diff = [] }

abbrev pub get_hashed_block : BlockWithDiff → HashedBlock
get_hashed_block d = get_or d.hashed_block empty_hashed_block

pub record WalletKeypair : Type 0 where
  pub public_key : Option Bytes
  pub secret_key : Option Bytes
  pub name : Option Bytes
