-- ===== src/Engine/Bitmap.antt =====
-- RENEW, TRANSFER and RELEASE over a bitmap of the owned set, and their by-name forms:
-- protocol/impls/c/src/bitmap.c.
use namespace_indexer.Common.{
  ℕ, suc, ◌-◌, ◌/◌, ◌%◌, ◌^◌, Bool, not, ◌&&◌, ◌||◌, List, [], ◌∷◌, Option, none, some, ltb, leb,
  ◌==◌, if◌then◌else◌, ◌>>=◌, ◌>>◌, guard, length,
}
use namespace_indexer.Engine.Const.{max_anchor_age}
use namespace_indexer.Engine.Event.{ev_release_name}
use namespace_indexer.Engine.Types.{SmAction, SmNameRow, SmMut, SmState, SmTxCtx, is_owned}
use namespace_indexer.Engine.Name.{byte_at}
use namespace_indexer.Engine.Lease.{sort_rows, waterfill}
use namespace_indexer.Engine.Table.{
  find_name, put_row, remove_name, last_mutation, bump_mutation, count_ev,
}

-- The name is in the owned set: plain owned, or locked with `who` as the seller.
unfoldable pub controls : ℕ → SmNameRow → Bool
controls who r = if is_owned r.st then r.owner == who else r.seller == who

unfoldable pub mine : ℕ → List SmNameRow → List SmNameRow
unfolding controls
mine who [] = []
mine who (r ∷ rs) = if controls who r then r ∷ mine who rs else mine who rs

unfoldable pub collect_owned : ℕ → List SmNameRow → List SmNameRow
unfolding mine sort_rows
collect_owned who rs = sort_rows (mine who rs)

-- `flags[i >> 3] >> (i & 7) & 1`, false behind the end of the flags.
unfoldable pub bit_set : List ℕ → ℕ → Bool
bit_set flags i = ltb (i / 8) (length flags) && (byte_at flags (i / 8) / 2 ^ (i % 8) % 2 == 1)

-- The anchors of the wire format have 40 bits, so the cast to a signed number changes nothing.
unfoldable pub anchor_ok : List SmMut → ℕ → ℕ → ℕ → Bool
unfolding last_mutation
anchor_ok muts who anchor confirm =
    leb (last_mutation who muts) anchor
    && leb anchor confirm
    && leb (confirm - anchor) max_anchor_age

-- The rows whose bit is set, from index `i`.
unfoldable pub select : List ℕ → ℕ → List SmNameRow → List SmNameRow
unfolding bit_set
select flags i [] = []
select flags i (r ∷ rs) =
    if bit_set flags i then r ∷ select flags (suc i) rs else select flags (suc i) rs

unfoldable pub op_renew : SmState → SmTxCtx → SmAction → SmState
unfolding collect_owned waterfill anchor_ok select
op_renew s cx a =
    let buf = collect_owned cx.actor s.names in
    let all = waterfill cx.mtp cx.rate cx.car_value buf s in
    let sel = waterfill cx.mtp cx.rate cx.car_value (select a.flags 0 buf) s in
    if not a.has_anchor && length a.flags == 0
    then all
    else if a.has_anchor && anchor_ok s.muts cx.actor a.anchor cx.height
    then (if length a.flags == 0 then all else sel)
    else s

-- A gift carries no type.
unfoldable pub gifted_row : ℕ → SmNameRow → SmNameRow
gifted_row target r = record r { owner = target; owner_type = 0 }

-- The loop of TRANSFER: the names, and how many moved.
unfoldable pub transfer_rows :
    Bool → List ℕ → ℕ → ℕ → List SmNameRow → List SmNameRow × ℕ → List SmNameRow × ℕ
unfolding bit_set gifted_row put_row
transfer_rows sel_all flags target i [] acc = acc
transfer_rows sel_all flags target i (r ∷ rs) acc = transfer_rows sel_all flags target (suc i) rs (
    if (sel_all || bit_set flags i) && is_owned r.st
    then (put_row (gifted_row target r) acc.0, suc acc.1)
    else acc)

unfoldable pub op_transfer : SmState → SmTxCtx → SmAction → Option SmState
unfolding anchor_ok collect_owned transfer_rows bump_mutation
op_transfer s cx a = do
  guard (not a.has_anchor || anchor_ok s.muts cx.actor a.anchor cx.height)
  let r : List SmNameRow × ℕ =
      transfer_rows (not a.has_anchor) a.flags a.addr 0 (collect_owned cx.actor s.names)
        (s.names, 0)
  let muts : List SmMut =
      if ltb 0 r.1
      then bump_mutation a.addr cx.height (bump_mutation cx.actor cx.height s.muts)
      else s.muts
  some (record s { names = r.0; muts = muts })

-- The row of the name, if the acting identity controls it.
unfoldable pub find_mine : SmState → ℕ → SmAction → Option SmNameRow
unfolding find_name controls
find_mine s who a = do
  guard (leb 1 (length a.name))
  r ← find_name a.name s.names
  guard (controls who r)
  some r

unfoldable pub op_renew_name : SmState → SmTxCtx → SmAction → Option SmState
unfolding find_mine waterfill
op_renew_name s cx a = do
  r ← find_mine s cx.actor a
  some (waterfill cx.mtp cx.rate cx.car_value (r ∷ []) s)

unfoldable pub op_transfer_name : SmState → SmTxCtx → SmAction → Option SmState
unfolding find_mine gifted_row put_row bump_mutation
op_transfer_name s cx a = do
  r ← find_mine s cx.actor a
  guard (is_owned r.st)
  some (record s {
    names = put_row (gifted_row a.addr r) s.names;
    muts = bump_mutation a.addr cx.height (bump_mutation cx.actor cx.height s.muts);
  })

unfoldable pub op_release_name : SmState → SmTxCtx → SmAction → Option SmState
unfolding find_mine remove_name bump_mutation count_ev
op_release_name s cx a = do
  r ← find_mine s cx.actor a
  guard (is_owned r.st)
  some (record s {
    names = remove_name r.name s.names;
    muts = bump_mutation cx.actor cx.height s.muts;
    ev = count_ev ev_release_name s.ev;
  })

-- The names that RELEASE collects before it removes any.
unfoldable pub release_list : List ℕ → ℕ → List SmNameRow → List (List ℕ)
unfolding bit_set
release_list flags i [] = []
release_list flags i (r ∷ rs) =
    if bit_set flags i && is_owned r.st
    then r.name ∷ release_list flags (suc i) rs
    else release_list flags (suc i) rs

-- One round of the loop that removes.
unfoldable pub release_found :
    List ℕ → List SmNameRow × List ℕ → Option SmNameRow → List SmNameRow × List ℕ
unfolding remove_name count_ev
release_found n acc none = acc
release_found n acc (some r) = (remove_name n acc.0, count_ev ev_release_name acc.1)

unfoldable pub release_names : List (List ℕ) → List SmNameRow × List ℕ → List SmNameRow × List ℕ
unfolding find_name release_found
release_names [] acc = acc
release_names (n ∷ ns) acc = release_names ns (release_found n acc (find_name n acc.0))

unfoldable pub op_release : SmState → SmTxCtx → SmAction → Option SmState
unfolding anchor_ok collect_owned release_list release_names bump_mutation
op_release s cx a = do
  guard a.has_anchor
  guard (anchor_ok s.muts cx.actor a.anchor cx.height)
  let rel : List (List ℕ) = release_list a.flags 0 (collect_owned cx.actor s.names)
  let r : List SmNameRow × List ℕ = release_names rel (s.names, s.ev)
  let muts : List SmMut =
      if ltb 0 (length rel) then bump_mutation cx.actor cx.height s.muts else s.muts
  some (record s { names = r.0; ev = r.1; muts = muts })
