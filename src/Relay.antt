-- ===== src/Relay.antt =====
-- The relay of unconfirmed transactions: src/txcheck.c and src/mempool.c.
pub mod TxCheck
pub mod Chains
pub mod Mempool
