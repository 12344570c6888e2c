-- ===== src/App.antt =====
-- app.rs: the application, which answers requests, follows its peers and stakes.
pub mod Socket
pub mod Peer
pub mod State
pub mod Dispatch
pub mod Follow
pub mod Loop
pub mod Safety
pub mod Unserved
pub mod Exchange
pub mod Handled
