-- ===== src/Engine/Lease.antt =====
-- Pay-for-duration leases: protocol/impls/c/src/lease.c. The 128-bit products of the source do not
-- wrap: a burn below 2 ^ 64 times the quantum is below 2 ^ 86.
pub mod Bounds
pub mod Shape
pub mod Even
pub mod Write
pub mod Single
use namespace_indexer.Common.{
  ℕ, zero, suc, ◌+◌, ◌-◌, ◌*◌, ◌/◌, ◌%◌, Bool, true, false, ◌&&◌, ◌||◌, List, [], ◌∷◌, ltb, leb,
  ◌==◌, if◌then◌else◌, bytes_lt, length, get_elem?, map,
}
use namespace_indexer.Engine.Const.{lease_quantum, billing_unit, max_lease}
use namespace_indexer.Engine.Event.{ev_waterfill_cap, ev_waterfill_forfeit}
use namespace_indexer.Engine.Types.{SmNameRow, SmState}
use namespace_indexer.Engine.Table.{put_row, count_ev}

unfoldable pub raw_t : ℕ → ℕ → ℕ
raw_t burn rate = let r = if rate == 0 then 1 else rate in burn * lease_quantum / (r * billing_unit)

unfoldable pub lease_covers_day : ℕ → ℕ → Bool
lease_covers_day burn rate =
    let r = if rate == 0 then 1 else rate in leb (r * billing_unit) (burn * lease_quantum)

-- `qsort` by name.
unfoldable pub insert_row : SmNameRow → List SmNameRow → List SmNameRow
insert_row r [] = r ∷ []
insert_row r (q ∷ rs) =
    let rest = insert_row r rs in if bytes_lt q.name r.name then q ∷ rest else r ∷ q ∷ rs

unfoldable pub sort_rows : List SmNameRow → List SmNameRow
unfolding insert_row
sort_rows [] = []
sort_rows (r ∷ rs) = insert_row r (sort_rows rs)

-- A target of the water-fill: the row, its headroom `h[i]` and the days awarded `add[i]`.
pub record Slot : Type 0 where
  pub row : SmNameRow
  pub head : ℕ
  pub add : ℕ

-- The subtractions stop at 0, as the two clamps of the source do.
unfoldable pub headroom : ℕ → SmNameRow → ℕ
headroom now r = (max_lease - (r.lease_expiry - now)) / billing_unit

unfoldable pub new_slots : ℕ → List SmNameRow → List Slot
unfolding headroom
new_slots now [] = []
new_slots now (r ∷ rs) = record { row = r; head = headroom now r; add = 0 } ∷ new_slots now rs

unfoldable pub total_head : List Slot → ℕ
total_head [] = 0
total_head (x ∷ xs) = x.head + total_head xs

unfoldable pub cap_all : List Slot → List Slot
cap_all [] = []
cap_all (x ∷ xs) = record x { add = x.head } ∷ cap_all xs

unfoldable pub active : List Slot → ℕ
active [] = 0
active (x ∷ xs) = (if ltb x.add x.head then 1 else 0) + active xs

-- What one round gives to a slot.
unfoldable pub give : ℕ → Slot → ℕ
give share x =
    if ltb x.add x.head then (if ltb share (x.head - x.add) then share else x.head - x.add) else 0

-- One round over the slots: the days awarded, and the pool that is left.
unfoldable pub pass_slots : ℕ → List Slot → List Slot
unfolding give
pass_slots share [] = []
pass_slots share (x ∷ xs) = record x { add = x.add + give share x } ∷ pass_slots share xs

unfoldable pub pass_pool : ℕ → ℕ → List Slot → ℕ
unfolding give
pass_pool share pool [] = pool
pass_pool share pool (x ∷ xs) = pass_pool share (pool - give share x) xs

-- `for (;;)`, on fuel; every round takes a day from the pool, so `pool + 1` rounds are enough.
unfoldable pub rounds : ℕ → ℕ → List Slot → ℕ × List Slot
unfolding active pass_slots pass_pool
rounds zero pool xs = (pool, xs)
rounds (suc fuel) pool xs =
    let share = pool / active xs in
    let again = rounds fuel (pass_pool share pool xs) (pass_slots share xs) in
    if active xs == 0 || pool == 0 then (pool, xs) else if share == 0 then (pool, xs) else again

-- One more day for the first slots with headroom.
unfoldable pub last_days : ℕ → List Slot → List Slot
last_days pool [] = []
last_days zero (x ∷ xs) = x ∷ xs
last_days (suc pool) (x ∷ xs) =
    if ltb x.add x.head
    then record x { add = x.add + 1 } ∷ last_days pool xs
    else x ∷ last_days (suc pool) xs

unfoldable pub fill : ℕ → List Slot → List Slot
unfolding total_head cap_all rounds last_days
fill t xs =
    if leb (total_head xs) t then cap_all xs else let r = rounds (suc t) t xs in last_days r.0 r.1

-- `rows[i]->lease_expiry += add[i] * SM_BILLING_UNIT`
unfoldable pub extended : Slot → SmNameRow
extended x = record (x.row) { lease_expiry = x.row.lease_expiry + x.add * billing_unit }

-- The writes to the rows, and the counter of capped names.
unfoldable pub write_slots : List Slot → List SmNameRow → List SmNameRow
unfolding extended put_row
write_slots [] rs = rs
write_slots (x ∷ xs) rs = write_slots xs (put_row (extended x) rs)

unfoldable pub count_caps : List Slot → List ℕ → List ℕ
unfolding count_ev
count_caps [] ev = ev
count_caps (x ∷ xs) ev =
    count_caps xs (if ltb 0 x.head && x.add == x.head then count_ev ev_waterfill_cap ev else ev)

-- The slots that a burn ends in.
unfoldable pub award : ℕ → ℕ → ℕ → List SmNameRow → List Slot
unfolding raw_t sort_rows new_slots fill
award now rate burn rows = fill (raw_t burn rate) (new_slots now (sort_rows rows))

unfoldable pub waterfill : ℕ → ℕ → ℕ → List SmNameRow → SmState → SmState
unfolding award count_caps write_slots count_ev
waterfill now rate burn rows s =
    let slots = new_slots now (sort_rows rows) in
    let head = total_head slots in
    let ev =
      if ltb head (raw_t burn rate) && ltb 0 head
      then count_ev ev_waterfill_forfeit s.ev
      else s.ev in
    let awarded = award now rate burn rows in
    record s { names = write_slots awarded s.names; ev = count_caps awarded ev }
