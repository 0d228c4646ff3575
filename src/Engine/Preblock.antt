-- ===== src/Engine/Preblock.antt =====
-- The time-triggered transitions before a block: protocol/impls/c/src/preblock.c. A loop that
-- swaps the last element into a freed slot is a recursion on the elements from the slot on, with
-- their number as fuel.
pub mod Lookup
pub mod Sweep
use namespace_indexer.Common.{
  ℕ, zero, suc, ◌+◌, Bool, true, false, ◌&&◌, ◌||◌, List, [], ◌∷◌, ltb, leb, if◌then◌else◌, length,
}
use namespace_indexer.Engine.Const.{commit_expiry}
use namespace_indexer.Engine.Event.{ev_lapse}
use namespace_indexer.Engine.Types.{
  SmNameRow, SmNameState, SmCommit, SmMut, SmState, is_listed, is_offered, is_reserved,
}
use namespace_indexer.Engine.Table.{bump_mutation, last_first, count_ev}

unfoldable pub return_to_seller : SmNameRow → SmNameRow
return_to_seller r = record r {
  owner = r.seller;
  owner_type = r.seller_type;
  st = SmNameState.owned;
  price = 0;
  offer_expiry = 0;
  reserve_expiry = 0;
  burn_leg = 0;
  pay_leg = 0;
  seller = 0;
  seller_type = 0;
  buyer = 0;
}

-- The open listing again, with the deposit legs forfeited.
unfoldable pub relisted : SmNameRow → SmNameRow
relisted r = record r {
  st = SmNameState.listed;
  reserve_expiry = 0;
  burn_leg = 0;
  pay_leg = 0;
  buyer = 0;
}

-- Step 1: the reserve window is closed.
unfoldable pub close_reserve : ℕ → SmNameRow → SmNameRow
unfolding return_to_seller relisted
close_reserve mtp r =
    if is_reserved r.st && leb r.reserve_expiry mtp
    then (if ltb r.reserve_expiry r.offer_expiry then relisted r else return_to_seller r)
    else r

-- Step 2: the listing or the offer is closed.
unfoldable pub close_offer : ℕ → SmNameRow → SmNameRow
unfolding return_to_seller
close_offer mtp r =
    if (is_listed r.st || is_offered r.st) && leb r.offer_expiry mtp then return_to_seller r else r

-- The row before the lease test.
unfoldable pub settle_row : ℕ → SmNameRow → SmNameRow
unfolding close_reserve close_offer
settle_row mtp r = close_offer mtp (close_reserve mtp r)

-- What a pass over the rows leaves.
pub record Swept : Type 0 where
  pub rows : List SmNameRow
  pub muts : List SmMut
  pub ev : List ℕ

unfoldable pub sweep : ℕ → ℕ → ℕ → List SmNameRow → List SmMut → List ℕ → Swept
unfolding settle_row bump_mutation last_first count_ev
sweep zero height mtp rs muts ev = record { rows = rs; muts = muts; ev = ev }
sweep (suc fuel) height mtp [] muts ev = record { rows = []; muts = muts; ev = ev }
sweep (suc fuel) height mtp (r ∷ rs) muts ev =
    let q = settle_row mtp r in
    let lapsed =
      sweep fuel height mtp (last_first rs) (bump_mutation q.owner height muts)
        (count_ev ev_lapse ev) in
    let kept = sweep fuel height mtp rs muts ev in
    if leb q.lease_expiry mtp then lapsed else record kept { rows = q ∷ kept.rows }

unfoldable pub prune_commits : ℕ → ℕ → List SmCommit → List SmCommit
unfolding last_first
prune_commits zero mtp cs = cs
prune_commits (suc fuel) mtp [] = []
prune_commits (suc fuel) mtp (c ∷ cs) =
    let pruned = prune_commits fuel mtp (last_first cs) in
    let kept = prune_commits fuel mtp cs in
    if ltb (c.commit_time + commit_expiry) mtp then pruned else c ∷ kept

unfoldable pub preblock : ℕ → ℕ → SmState → SmState
unfolding sweep prune_commits
preblock height mtp s =
    let w = sweep (length s.names) height mtp s.names s.muts s.ev in
    record s {
      names = w.rows;
      muts = w.muts;
      ev = w.ev;
      commits = prune_commits (length s.commits) mtp s.commits;
    }
