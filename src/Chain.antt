-- ===== src/Chain.antt =====
-- Blocks and transactions as bytes: src/chain.c.
pub mod Hex
pub mod Cursor
pub mod Script
pub mod Tx
pub mod Merkle
pub mod Block
pub mod Adapter
