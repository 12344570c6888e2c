-- ===== src/Service.antt =====
-- service.rs: the service over the block tree, with the transactions that wait for a block. The
-- socket on which new heads are published is a parameter; what is printed is left out.
pub mod State
pub mod Mempool
pub mod Chain
pub mod Fetch
pub mod Pending
pub mod Heads
pub mod Answers
pub mod Sync
pub mod Requests
pub mod Traits
pub mod Client
pub mod Incoming
pub mod Inserted
pub mod Received
pub mod Settled
pub mod Staked
