-- ===== src/Engine/Invariant/Ops.antt =====
-- The invariant under the market handlers and the by-name handlers (market.c and bitmap.c).
use namespace_indexer.Common.{
  ℕ, ◌+◌, ◌<◌, ◌≡◌, refl, true, ◌&&◌, List, [], ◌∷◌, some, ltb, leb, ◌==◌, leb→le, if◌then◌else◌,
  arith, All, OnSome, OnSome-guard, OnSome-bind,
}
use namespace_indexer.Engine.Const.{
  u64_mod, reserve_window, sell_price_floor, reorg_buffer, dust_floor, direct_window,
  reserve_burn_bps, reserve_pay_bps,
}
use namespace_indexer.Engine.Types.{
  SmAction, SmTx, SmNameRow, SmState, SmTxCtx, is_owned, is_listed, is_reserved, is_offered,
}
use namespace_indexer.Engine.Name.{name_valid}
use namespace_indexer.Engine.Table.{find_name, put_row}
use namespace_indexer.Engine.Table.Laws.{
  Unique, Unique-put_row, Unique-remove_name, All-find_name, All-put_row, All-remove_name,
}
use namespace_indexer.Engine.Lease.{award, waterfill}
use namespace_indexer.Engine.Lease.Write.{write_slots-Unique, write_slots-All, award-All}
use namespace_indexer.Engine.Market.{
  deposit_leg, consume_output, sub64, op_sell, op_reserve, op_settle, op_sell_to, op_pay,
  listed_row, reserved_row, sold_row, offered_row,
}
use namespace_indexer.Engine.Bitmap.{
  find_mine, op_renew_name, op_transfer_name, op_release_name, gifted_row,
}
use namespace_indexer.Engine.Invariant.{RowOk, Inv}
use namespace_indexer.Engine.Invariant.Rows.{
  listed_row-RowOk, offered_row-RowOk, reserved_row-RowOk, sold_row-RowOk, gifted_row-RowOk,
  extended-RowOk,
}

pub find_mine-find_name :
    (s : SmState) (who : ℕ) (a : SmAction) (r : SmNameRow)
    → find_mine s who a ≡ some r
    → find_name a.name s.names ≡ some r
unfolding find_mine
find_mine-find_name s who a r h = ground arith

module _ (now : ℕ) where
  pub waterfill-Inv :
      (s : SmState) (rate burn : ℕ) (rows : List SmNameRow)
      → Inv now s
      → All (RowOk now) rows
      → Inv now (waterfill now rate burn rows s)
  unfolding waterfill
  waterfill-Inv s rate burn rows v a = record {
    unique = write_slots-Unique (award now rate burn rows) s.names v.unique;
    rows =
        write_slots-All (RowOk now) (award now rate burn rows) s.names
          (award-All (RowOk now) (RowOk now) now (extended-RowOk now) rate burn rows a) v.rows;
    clock = v.clock;
  }

  -- Equal tests of the acting identity, as an equation.
  pub held :
      (r : SmNameRow) (who : ℕ)
      → (is_owned r.st && r.owner == who) ≡ true
      → (is_owned r.st ≡ true) × (r.owner ≡ who)
  held r who h = ground arith

  pub put_found :
      (s : SmState) (n : List ℕ) (r q : SmNameRow)
      → Inv now s
      → find_name n s.names ≡ some r
      → (RowOk now r → RowOk now q)
      → Unique (put_row q s.names) × All (RowOk now) (put_row q s.names)
  put_found s n r q v found step = (
    Unique-put_row q s.names v.unique,
    All-put_row (RowOk now) q s.names (step (All-find_name (RowOk now) n s.names r v.rows found))
        v.rows,
  )

  module _ (s : SmState) (cx : SmTxCtx) (a : SmAction) (v : Inv now s) where
    pub op_sell-Inv : a.price < u64_mod → OnSome (Inv now) (op_sell s cx a)
    unfolding op_sell
    op_sell-Inv word =
        let w : ℕ = if a.window == 0 then reserve_window else a.window in
        OnSome-guard (Inv now) (name_valid a.name) _ λ valid.
          OnSome-guard (Inv now) (leb sell_price_floor a.price) _ λ floor.
            OnSome-bind (Inv now) (find_name a.name s.names) _ λ r found.
              OnSome-guard (Inv now) (is_owned r.st && r.owner == cx.actor) _ λ own.
                OnSome-guard (Inv now) (leb reserve_window w) _ λ long.
                  OnSome-guard (Inv now) (leb (cx.mtp + w + reorg_buffer) r.lease_expiry) _ λ tail.
                    let (u, rs) = put_found s a.name r (listed_row cx a w r) v found (
                      listed_row-RowOk now cx a w r (held r cx.actor own).1 (leb→le _ _ floor) word
                        (leb→le _ _ tail)) in
                    record { unique = u; rows = rs; clock = v.clock }

    pub op_sell_to-Inv : a.price < u64_mod → OnSome (Inv now) (op_sell_to s cx a)
    unfolding op_sell_to
    op_sell_to-Inv word = OnSome-guard (Inv now) (name_valid a.name) _ λ valid.
        OnSome-guard (Inv now) (leb dust_floor a.price) _ λ floor.
          OnSome-bind (Inv now) (find_name a.name s.names) _ λ r found.
            OnSome-guard (Inv now) (is_owned r.st && r.owner == cx.actor) _ λ own.
              OnSome-guard (Inv now) (leb (cx.mtp + direct_window + reorg_buffer) r.lease_expiry) _
                λ tail.
                  let (u, rs) =
                    put_found s a.name r (offered_row cx a r) v found (
                      offered_row-RowOk now cx a r (held r cx.actor own).1 word
                        (leb→le _ _ tail)) in
                  record { unique = u; rows = rs; clock = v.clock }

    pub op_transfer_name-Inv : OnSome (Inv now) (op_transfer_name s cx a)
    unfolding op_transfer_name find_mine
    op_transfer_name-Inv = OnSome-bind (Inv now) (find_mine s cx.actor a) _ λ r found.
        OnSome-guard (Inv now) (is_owned r.st) _ λ own.
          let (u, rs) =
            put_found s a.name r (gifted_row a.addr r) v (find_mine-find_name s cx.actor a r found)
              (gifted_row-RowOk now r a.addr own) in
          record { unique = u; rows = rs; clock = v.clock }

    pub op_release_name-Inv : OnSome (Inv now) (op_release_name s cx a)
    unfolding op_release_name
    op_release_name-Inv = OnSome-bind (Inv now) (find_mine s cx.actor a) _ λ r found.
        OnSome-guard (Inv now) (is_owned r.st) _ λ own. record {
          unique = Unique-remove_name r.name s.names v.unique;
          rows = All-remove_name (RowOk now) r.name s.names v.rows;
          clock = v.clock;
        }

    pub op_renew_name-Inv : cx.mtp ≡ now → OnSome (Inv now) (op_renew_name s cx a)
    unfolding op_renew_name
    op_renew_name-Inv e = OnSome-bind (Inv now) (find_mine s cx.actor a) _ λ r found. rw e (
        waterfill-Inv s cx.rate cx.car_value (r ∷ []) v (
          All-find_name (RowOk now) a.name s.names r v.rows
              (find_mine-find_name s cx.actor a r found),
          tt,
        ))

    module _ (tx : SmTx) where
      -- The market handlers change the context too: the invariant is of the state.
      abbrev pub KeepsInv : SmState × SmTxCtx → Type 0
      KeepsInv w = Inv now w.0 × (w.1.mtp ≡ cx.mtp)

      pub op_reserve-Inv : OnSome KeepsInv (op_reserve s tx cx a)
      unfolding op_reserve
      op_reserve-Inv = OnSome-guard KeepsInv (name_valid a.name) _ λ valid.
          OnSome-bind KeepsInv (find_name a.name s.names) _ λ r found.
            OnSome-guard KeepsInv (is_listed r.st) _ λ open_listing.
              OnSome-guard KeepsInv (leb (deposit_leg r.price reserve_burn_bps) cx.car_value) _
                λ burn.
                  OnSome-bind KeepsInv
                    (consume_output r.seller r.seller_type (deposit_leg r.price reserve_pay_bps)
                      tx.outs cx.out_consumed)
                    _
                    λ consumed paid.
                      let (u, rs) =
                        put_found s a.name r (reserved_row cx r) v found
                          (reserved_row-RowOk now cx r open_listing) in
                      (record { unique = u; rows = rs; clock = v.clock }, refl)

      pub op_settle-Inv : OnSome KeepsInv (op_settle s tx cx a)
      unfolding op_settle
      op_settle-Inv = OnSome-guard KeepsInv (name_valid a.name) _ λ valid.
          OnSome-bind KeepsInv (find_name a.name s.names) _ λ r found.
            OnSome-guard KeepsInv (is_reserved r.st) _ λ reserved.
              OnSome-guard KeepsInv (r.buyer == cx.actor) _ λ buyer.
                OnSome-guard KeepsInv (ltb cx.mtp r.reserve_expiry) _ λ early.
                  OnSome-bind KeepsInv
                    (consume_output r.seller r.seller_type
                      (sub64 (sub64 r.price r.burn_leg) r.pay_leg) tx.outs cx.out_consumed)
                    _
                    λ consumed paid.
                      let (u, rs) =
                        put_found s a.name r (sold_row cx r) v found (sold_row-RowOk now cx r) in
                      (record { unique = u; rows = rs; clock = v.clock }, refl)

      pub op_pay-Inv : OnSome KeepsInv (op_pay s tx cx a)
      unfolding op_pay
      op_pay-Inv = OnSome-guard KeepsInv (name_valid a.name) _ λ valid.
          OnSome-bind KeepsInv (find_name a.name s.names) _ λ r found.
            OnSome-guard KeepsInv (is_offered r.st) _ λ offered.
              OnSome-guard KeepsInv (r.buyer == cx.actor) _ λ buyer.
                OnSome-guard KeepsInv (ltb cx.mtp r.offer_expiry) _ λ early.
                  OnSome-bind KeepsInv
                    (consume_output r.seller r.seller_type r.price tx.outs cx.out_consumed) _
                    λ consumed paid.
                      let (u, rs) =
                        put_found s a.name r (sold_row cx r) v found (sold_row-RowOk now cx r) in
                      (record { unique = u; rows = rs; clock = v.clock }, refl)
