-- ===== src/Tests.antt =====
-- Runs of the model on small inputs.
pub mod Coder
pub mod Messages
pub mod Statuses
pub mod Wire
pub mod World
pub mod Chain
pub mod Trees
pub mod Accounts
pub mod Digests
pub mod Signing
pub mod Stakes
pub mod Waiting
pub mod Fetches
pub mod Wallets
pub mod Startup
pub mod Nodes
pub mod Served
pub mod Payments
