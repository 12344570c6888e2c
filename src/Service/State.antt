-- ===== src/Service/State.antt =====
-- `IroncService` of service.rs, and actions on its parts.
use ironcoin.Base.{List, Bytes}
use ironcoin.Base.Action.{Action}
use ironcoin.Base.Run.{Run}
use ironcoin.Message.Ledger.{Transaction}

pub record IroncService (S Socket : Type 0) : Type 0 where
  pub blocktree : S
  pub pending_transactions : List Transaction
  pub pub_block_socket : Socket
  pub pub_block_endpoint_str : Bytes

module _ {S Socket A : Type 0} where
  abbrev pub on_blocktree : Action S A → Action (IroncService S Socket) A
  on_blocktree action service =
      let (r, tree) = action service.blocktree in (r, record service { blocktree = tree })

  abbrev pub on_socket : Action Socket A → Action (IroncService S Socket) A
  on_socket action service =
      let (r, socket) = action service.pub_block_socket in
      (r, record service { pub_block_socket = socket })

  abbrev pub read_blocktree : (S → Run A) → Action (IroncService S Socket) A
  read_blocktree f service = (f service.blocktree, service)
