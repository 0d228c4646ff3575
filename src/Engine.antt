-- ===== src/Engine.antt =====
-- The consensus engine, protocol/impls/c/src.
pub mod Const
pub mod Event
pub mod Types
pub mod Codec
pub mod Oracle
pub mod Feed
pub mod Table
pub mod Name
pub mod Lease
pub mod Market
pub mod Claim
pub mod Trade
pub mod Bitmap
pub mod Preblock
pub mod Fold
pub mod Invariant
pub mod Authority
pub mod Digest
