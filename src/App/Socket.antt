-- ===== src/App/Socket.antt =====
-- What app.rs takes from nanomsg: sockets are handles, and `World` is the state behind them.
use ironcoin.Base.{Bytes}
use ironcoin.Base.Action.{Action}
use ironcoin.Base.Run.{IroncError}

pub data Protocol : Type 0 where
  req sub : Protocol

-- What `nb_read_to_end` answers; `try_again` is the error kind `NanoErrorKind::TryAgain`.
pub data Received : Type 0 where
  got : Bytes → Received
  try_again : Received
  failed : IroncError → Received

pub record Nanomsg (World Socket : Type 0) : Type 0 where
  pub socket : Protocol → Action World Socket
  pub subscribe : Bytes → Socket → Action World (Unit {0})
  pub connect : Bytes → Socket → Action World (Unit {0})
  pub nb_write : Bytes → Socket → Action World (Unit {0})
  pub nb_read_to_end : Socket → World → Received × World
