-- ===== src/Engine/Feed.antt =====
-- The buffer of blocks behind the oracle: src/oracle_feed.c. The array is a list with its last
-- element first, since it grows and shrinks at the end.
pub mod Past
use namespace_indexer.Common.{
  ℕ, zero, suc, ◌-◌, ◌*◌, Bool, true, false, ◌&&◌, List, [], ◌∷◌, ◌++◌, ltb, leb, if◌then◌else◌,
}
use mathlib.Core.List.{reverse}
use namespace_indexer.Engine.Const.{fee_window, koinu_per_doge}
use namespace_indexer.Engine.Oracle.{OracleBlock, mtp, oracle_rate}

pub record Blk : Type 0 where
  pub height : ℕ
  pub time : ℕ
  pub coinbase : ℕ
  pub bytes : ℕ

pub record OracleFeed : Type 0 where
  pub v : List Blk
  pub subsidy : ℕ

unfoldable pub oracle_new : OracleFeed
oracle_new = record { v = []; subsidy = 10000 * koinu_per_doge }

unfoldable pub oracle_set_subsidy : OracleFeed → ℕ → OracleFeed
oracle_set_subsidy o subsidy = if ltb 0 subsidy then record o { subsidy = subsidy } else o

unfoldable pub pop_from : ℕ → List Blk → List Blk
pop_from height [] = []
pop_from height (b ∷ bs) =
    let rest = pop_from height bs in if leb height b.height then rest else b ∷ bs

unfoldable pub oracle_rollback : OracleFeed → ℕ → OracleFeed
unfolding pop_from
oracle_rollback o height = record o { v = pop_from height o.v }

unfoldable pub oracle_record : OracleFeed → Blk → OracleFeed
unfolding oracle_rollback
oracle_record o b = record o { v = b ∷ (oracle_rollback o b.height).v }

-- The newest times below the height, `room` of them at most.
unfoldable pub newest_times : ℕ → ℕ → List Blk → List ℕ
newest_times room height [] = []
newest_times zero height (b ∷ bs) = []
newest_times (suc room) height (b ∷ bs) =
    let taken = newest_times room height bs in
    let passed = newest_times (suc room) height bs in
    if ltb b.height height then b.time ∷ taken else passed

unfoldable pub oldest_first : List Blk → List Blk
oldest_first [] = []
oldest_first (b ∷ bs) = oldest_first bs ++ b ∷ []

-- The blocks of the fee window, `room` of them at most, for `height` and its lowest height `lo`.
unfoldable pub fee_blocks : ℕ → ℕ → ℕ → ℕ → List Blk → List OracleBlock
fee_blocks room subsidy lo height [] = []
fee_blocks zero subsidy lo height (b ∷ bs) = []
fee_blocks (suc room) subsidy lo height (b ∷ bs) =
    let taken = fee_blocks room subsidy lo height bs in
    let passed = fee_blocks (suc room) subsidy lo height bs in
    if leb lo b.height && ltb b.height height
    then record { coinbase = b.coinbase; subsidy = subsidy; bytes = b.bytes } ∷ taken
    else passed

-- A window that begins below height 0 begins at 0 here, with the same blocks in it.
unfoldable pub oracle_for_height : OracleFeed → ℕ → ℕ × ℕ
unfolding newest_times oldest_first fee_blocks mtp oracle_rate
oracle_for_height o height = (
  mtp (reverse (newest_times 11 height o.v)),
  oracle_rate (fee_blocks fee_window o.subsidy (height - fee_window) height (oldest_first o.v)),
)
