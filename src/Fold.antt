-- ===== src/Fold.antt =====
-- The fold of the chain's events into the node's state (offchain/src/fold).
pub mod Types
pub mod Claims
pub mod Finalized
pub mod Access
pub mod Replay
pub mod Input
pub mod Accumulating
pub mod Sealed
pub mod Finalizing
pub mod Epoch
pub mod Descartes
pub mod Setup
