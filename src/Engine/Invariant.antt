-- ===== src/Engine/Invariant.antt =====
-- The invariant of the fold state (protocol/impls/c/src): one row for a name, and for each row the
-- nesting of its deadlines that preblock.c relies on, the holder of a locked name, the price and
-- the deposit legs; and the clock of the state.
pub mod Rows
pub mod Ops
pub mod Sets
pub mod Chain
pub mod Sale
use namespace_indexer.Common.{ℕ, ◌+◌, ◌≤◌, ◌<◌, ◌≡◌, true, false, All}
use namespace_indexer.Engine.Const.{
  max_lease, reorg_buffer, sell_price_floor, reserve_burn_bps, reserve_pay_bps, u64_mod,
}
use namespace_indexer.Engine.Types.{SmNameRow, SmState, is_owned, is_offered, is_reserved}
use namespace_indexer.Engine.Name.{name_valid}
use namespace_indexer.Engine.Market.{deposit_leg}
use namespace_indexer.Engine.Table.Laws.{Unique}

pub record RowOk (now : ℕ) (r : SmNameRow) : Type 0 where
  pub valid : name_valid r.name ≡ true
  pub capped : r.lease_expiry ≤ now + max_lease
  pub holder : is_owned r.st ≡ false → r.seller ≡ r.owner
  pub nested : is_owned r.st ≡ false → r.offer_expiry + reorg_buffer ≤ r.lease_expiry
  pub clamped : is_reserved r.st ≡ true → r.reserve_expiry ≤ r.offer_expiry
  pub priced : is_owned r.st ≡ false → is_offered r.st ≡ false → sell_price_floor ≤ r.price
  pub word : r.price < u64_mod
  pub burned : is_reserved r.st ≡ true → r.burn_leg ≡ deposit_leg r.price reserve_burn_bps
  pub paid : is_reserved r.st ≡ true → r.pay_leg ≡ deposit_leg r.price reserve_pay_bps

pub record Inv (now : ℕ) (s : SmState) : Type 0 where
  pub unique : Unique s.names
  pub rows : All (RowOk now) s.names
  pub clock : s.cur_mtp ≡ now
