-- ===== src/Engine/Invariant/Rows.antt =====
-- The rows that the handlers write, against the invariant of a row.
use namespace_indexer.Common.{ℕ, ◌+◌, ◌≤◌, ◌<◌, ◌≡◌, true, arith, List}
use namespace_indexer.Engine.Const.{reorg_buffer, direct_window, sell_price_floor, u64_mod}
use namespace_indexer.Engine.Types.{SmAction, SmNameRow, SmTxCtx, is_owned, is_listed}
use namespace_indexer.Engine.Name.{name_valid}
use namespace_indexer.Engine.Table.{zero_row}
use namespace_indexer.Engine.Lease.{Slot, headroom, extended}
use namespace_indexer.Engine.Market.{listed_row, reserved_row, sold_row, offered_row}
use namespace_indexer.Engine.Claim.{claimed_row}
use namespace_indexer.Engine.Bitmap.{gifted_row}
use namespace_indexer.Engine.Invariant.{RowOk}

module _ (now : ℕ) where
  pub listed_row-RowOk :
      (cx : SmTxCtx) (a : SmAction) (w : ℕ) (r : SmNameRow)
      → r.owner ≡ cx.actor
      → sell_price_floor ≤ a.price
      → a.price < u64_mod
      → cx.mtp + w + reorg_buffer ≤ r.lease_expiry
      → RowOk now r
      → RowOk now (listed_row cx a w r)
  unfolding listed_row
  listed_row-RowOk cx a w r own floor word tail h = ground arith

  pub offered_row-RowOk :
      (cx : SmTxCtx) (a : SmAction) (r : SmNameRow)
      → r.owner ≡ cx.actor
      → a.price < u64_mod
      → cx.mtp + direct_window + reorg_buffer ≤ r.lease_expiry
      → RowOk now r
      → RowOk now (offered_row cx a r)
  unfolding offered_row
  offered_row-RowOk cx a r own word tail h = ground arith

  pub reserved_row-RowOk :
      (cx : SmTxCtx) (r : SmNameRow)
      → is_listed r.st ≡ true
      → RowOk now r
      → RowOk now (reserved_row cx r)
  unfolding reserved_row
  reserved_row-RowOk cx r listed h = ground arith

  pub sold_row-RowOk : (cx : SmTxCtx) (r : SmNameRow) → RowOk now r → RowOk now (sold_row cx r)
  unfolding sold_row
  sold_row-RowOk cx r h = ground arith

  -- A plain owned row may change hands.
  pub moved_row-RowOk :
      (r : SmNameRow) (owner type : ℕ)
      → is_owned r.st ≡ true
      → RowOk now r
      → RowOk now (record r { owner = owner; owner_type = type })
  moved_row-RowOk r owner type own h = ground arith

  pub gifted_row-RowOk :
      (r : SmNameRow) (target : ℕ)
      → is_owned r.st ≡ true
      → RowOk now r
      → RowOk now (gifted_row target r)
  unfolding gifted_row
  gifted_row-RowOk r target own h = ground arith

  pub claimed_row-RowOk :
      (cx : SmTxCtx) (r : SmNameRow)
      → cx.mtp ≡ now
      → is_owned r.st ≡ true
      → RowOk now r
      → RowOk now (claimed_row cx r)
  claimed_row-RowOk cx r e own h = ground arith

  pub zero_row-RowOk : (n : List ℕ) → name_valid n ≡ true → RowOk now (zero_row n)
  unfolding zero_row
  zero_row-RowOk n h = ground arith

  -- An award only lengthens a lease, and to a full lease from now at most.
  pub extended-RowOk :
      (x : Slot)
      → RowOk now x.row
      → x.head ≡ headroom now x.row
      → x.add ≤ x.head
      → RowOk now (extended x)
  unfolding extended headroom
  extended-RowOk x h e fits = ground arith
