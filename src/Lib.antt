-- ===== src/Lib.antt =====
-- The name fold of the namespace indexer: names with leases, claimed by commit and reveal, sold,
-- swapped and renewed by actions that transactions carry.
--
-- The engine is protocol/impls/c/src. A driver feeds it blocks: a block first runs the transitions
-- that its time makes due, then folds its transactions in order; a transaction walks its carriers,
-- and each action runs one handler on the state and on the context of the transaction.
--
-- - Common: Boolean tests, lists over the native numbers, early returns, byte strings.
-- - Engine.Const, Engine.Event, Engine.Types: the constants, counters and structs of sm.h.
-- - Engine.Table, Engine.Name: state.c, and the claim scratch of claim.c. The arrays are lists in
--   array order; a freed slot takes the last element (`last_first`), as in the source. A pointer to
--   a row is the row itself, found by its name; a write through it is `put_row`.
-- - Engine.Lease: lease.c. `rounds` is the loop of sm_waterfill on fuel; each round takes a day
--   from the pool, so one round more than the pool has days is enough (Engine.Lease.Bounds).
-- - Engine.Claim, Engine.Market, Engine.Trade, Engine.Bitmap: one function per handler of claim.c,
--   market.c, trade.c and bitmap.c. An early return is `none`. SETTLE's subtractions are those of
--   a `uint64_t`, with the wrap-around written out.
-- - Engine.Preblock: preblock.c. Its loops run on the length of the array as fuel, since each step
--   passes or removes an element.
-- - Engine.Codec: decode.c, the bytes of actions. Engine.Oracle: oracle.c, the time and rate of a
--   block; `qsort` is by insertion.
-- - Engine.Feed: src/oracle_feed.c, the buffer of blocks that the oracle reads.
-- - Engine.Fold: fold.c, with the block as a driver feeds it.
-- - Engine.Digest: digest.c. The `qsort` of the C library is a parameter with what its documentation
--   promises (Qsort): it permutes the array, and orders it where the comparison is a total preorder.
-- - Engine.Invariant: the invariant of the state, through every handler, block and chain.
-- - Engine.Authority: what a transaction cannot touch.
-- - Chain: src/chain.c and src/adapter.c, from the bytes of a block to the transactions that the
--   engine folds. A reader takes bytes off the front of what is left, and is `none` where the
--   source sets the error flag of its cursor. Chain.Adapter takes the attribution of an input to an
--   identity as a parameter. The Merkle loop runs on the number of hashes as fuel: a level halves
--   them (Chain.Merkle.Mutation).
-- - Relay: src/txcheck.c, the checks of a transaction before it is relayed; the walk over a script
--   runs on the number of its bytes as fuel, one for each turn at least. src/mempool.c, the pool of
--   those that passed: two tables of chains, a ring of seen ids, and the loop that evicts
--   (make_room), on a turn for each entry and one more. Relay.Mempool.Apart runs its calls.
-- - Net: src/net_policy.c, bans, the budget and the score of a peer.
-- - Tests: runs on a short history, and the theorems at concrete inputs.
--
-- The hash of sha256.c is a parameter of the fold, any function from byte strings to numbers.
-- Hashes of keys and commitments are numbers. Heights, times and rates are taken to be
-- non-negative and their sums to fit the signed 64-bit variables of the source; products in 128
-- bits do not wrap. Not modelled: allocation, the synthetic transaction id of fold.c, which no
-- handler of the names reads, attribution and its overlay, the harness, and in src proof of work,
-- the database, most of the network and the services.
pub mod Chain
pub mod Common
pub mod Engine
pub mod Net
pub mod Relay
pub mod Tests
