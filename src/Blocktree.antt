-- ===== src/Blocktree.antt =====
-- blocktree.rs: the block tree in a key-value store, with the balances at its head.
-- `BlockTreeStore` has one field, so it is the store itself.
pub mod Keys
pub mod Laws
pub mod Entries
pub mod Tree
pub mod Steps
pub mod Ancestry
pub mod Moves
pub mod Insertion
pub mod Growth
pub mod Given
pub mod Planting
pub mod Granted
pub mod Opening
pub mod Reach
pub mod Genesis
pub mod Walk
pub mod Store
