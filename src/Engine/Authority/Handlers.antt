-- ===== src/Engine/Authority/Handlers.antt =====
-- A plain owned name under the handlers of another acting identity (bitmap.c, market.c).
use namespace_indexer.Common.{
  ℕ, suc, ◌+◌, ◌≡◌, ◌≢◌, refl, ap, ◌∙◌, sym, subst, Bool, true, false, not, ◌&&◌, ◌||◌, List, [],
  ◌∷◌, Option, none, some, leb, ◌==◌, if◌then◌else◌, if-elim, arith, All, Bool-cases, inl, inr,
  bytes_eq, bytes_eq_iff, OnSome, OnSome-guard, OnSome-bind, length,
}
use namespace_indexer.Engine.Const.{
  sell_price_floor, reserve_window, reorg_buffer, dust_floor, direct_window,
}
use namespace_indexer.Engine.Types.{SmAction, SmNameRow, SmState, SmTxCtx, is_owned}
use namespace_indexer.Engine.Name.{name_valid}
use namespace_indexer.Engine.Table.{find_name, put_row, find_scratch}
use namespace_indexer.Engine.Table.Laws.{
  Unique, find_name-name, find_name-put_row_ne, find_name-remove_name, Unique-remove_name,
}
use namespace_indexer.Engine.Lease.{waterfill}
use namespace_indexer.Engine.Lease.Write.{sort_rows-All, find_name-waterfill}
use namespace_indexer.Engine.Market.{op_sell, op_sell_to, listed_row, offered_row}
use namespace_indexer.Engine.Bitmap.{
  collect_owned, select, op_renew, transfer_rows, op_transfer, find_mine, op_renew_name,
  op_transfer_name, op_release_name, release_found, release_names, release_list, op_release,
  gifted_row, bit_set, anchor_ok,
}
use namespace_indexer.Engine.Invariant.Sets.{select-All}
use namespace_indexer.Engine.Authority.{Untouched, Other, mine-foreign, foreign-controls}

module _ (n : List ℕ) (r : SmNameRow) (own : is_owned r.st ≡ true) where
  module _ (s : SmState) (cx : SmTxCtx) (a : SmAction) (k : Untouched n r s)
      (d : r.owner ≢ cx.actor) where
    -- Another row than that of the name: a row that the acting identity owns or that is locked.
    pub apart :
        (m : List ℕ) (q : SmNameRow)
        → find_name m s.names ≡ some q
        → (q.name ≡ n → q ≢ r)
        → Other n q
    apart m q found differ = elim (Bool-cases (bytes_eq q.name n)) [
      | inl e ↦
          let same = (bytes_eq_iff q.name n).0 e in
          let named : q.name ≡ m = find_name-name m s.names q found in
          let there : find_name n s.names ≡ some q =
            subst (λ t. find_name t s.names ≡ some q) (sym named ∙ same) found in
          let row = k.row in absurd (differ same (ground arith))
      | inr e ↦ e
    ]

    pub put_Untouched :
        (m : List ℕ) (q q' : SmNameRow) (s' : SmState)
        → find_name m s.names ≡ some q
        → q ≢ r
        → q'.name ≡ q.name
        → s'.names ≡ put_row q' s.names
        → s'.claimsc ≡ s.claimsc
        → Untouched n r s'
    put_Untouched m q q' s' found differ named names scratch = record {
      row =
          ap (find_name n) names
          ∙ find_name-put_row_ne n q' s.names
              (ap (λ t. bytes_eq t n) named ∙ apart m q found (λ _. differ))
          ∙ k.row;
      settled = ap (find_scratch n) scratch ∙ k.settled;
    }

    pub owned_apart : (q : SmNameRow) → (is_owned q.st && q.owner == cx.actor) ≡ true → q ≢ r
    owned_apart q h e = d (ground arith)

    pub locked_apart : (q : SmNameRow) → is_owned q.st ≡ false → q ≢ r
    locked_apart q h e = ground arith

    mine_found :
        (q : SmNameRow) → find_mine s cx.actor a ≡ some q → find_name a.name s.names ≡ some q
    unfolding find_mine
    mine_found q h = ground arith

    mine_apart : (q : SmNameRow) → find_mine s cx.actor a ≡ some q → q ≢ r
    unfolding find_mine
    mine_apart q h e = d (ground arith)

    pub op_sell-Untouched : OnSome (Untouched n r) (op_sell s cx a)
    unfolding op_sell
    op_sell-Untouched =
        let P = Untouched n r in
        let w : ℕ = if a.window == 0 then reserve_window else a.window in
        OnSome-guard P (name_valid a.name) _ λ valid.
          OnSome-guard P (leb sell_price_floor a.price) _ λ floor.
            OnSome-bind P (find_name a.name s.names) _ λ q found.
              OnSome-guard P (is_owned q.st && q.owner == cx.actor) _ λ owned.
                OnSome-guard P (leb reserve_window w) _ λ long.
                  OnSome-guard P (leb (cx.mtp + w + reorg_buffer) q.lease_expiry) _ λ tail.
                    put_Untouched a.name q (listed_row cx a w q) _ found (owned_apart q owned)
                      (unfold listed_row in refl) refl refl

    pub op_sell_to-Untouched : OnSome (Untouched n r) (op_sell_to s cx a)
    unfolding op_sell_to
    op_sell_to-Untouched =
        let P = Untouched n r in
        OnSome-guard P (name_valid a.name) _ λ valid.
          OnSome-guard P (leb dust_floor a.price) _ λ floor.
            OnSome-bind P (find_name a.name s.names) _ λ q found.
              OnSome-guard P (is_owned q.st && q.owner == cx.actor) _ λ owned.
                OnSome-guard P (leb (cx.mtp + direct_window + reorg_buffer) q.lease_expiry) _
                  λ tail.
                    put_Untouched a.name q (offered_row cx a q) _ found (owned_apart q owned)
                      (unfold offered_row in refl) refl refl

    pub op_transfer_name-Untouched : OnSome (Untouched n r) (op_transfer_name s cx a)
    unfolding op_transfer_name
    op_transfer_name-Untouched =
        let P = Untouched n r in
        OnSome-bind P (find_mine s cx.actor a) _ λ q found.
          OnSome-guard P (is_owned q.st) _ λ owned.
            put_Untouched a.name q (gifted_row a.addr q) _ (mine_found q found) (mine_apart q found)
              (unfold gifted_row in refl) refl refl

    pub op_renew_name-Untouched : OnSome (Untouched n r) (op_renew_name s cx a)
    unfolding op_renew_name
    op_renew_name-Untouched =
        let P = Untouched n r in
        OnSome-bind P (find_mine s cx.actor a) _ λ q found.
          let other = apart a.name q (mine_found q found) (λ _. mine_apart q found) in
          record {
            row = find_name-waterfill n cx.mtp cx.rate cx.car_value (q ∷ []) s (other, tt) ∙ k.row;
            settled = unfold waterfill in k.settled;
          }

    module _ (unique : Unique s.names) where
      foreign : All (Other n) (collect_owned cx.actor s.names)
      unfolding collect_owned
      foreign =
          sort_rows-All (Other n) _
            (mine-foreign n r cx.actor s.names unique k.row (foreign-controls r cx.actor own d))

      pub op_release_name-Untouched : OnSome (Untouched n r) (op_release_name s cx a)
      unfolding op_release_name
      op_release_name-Untouched =
          let P = Untouched n r in
          OnSome-bind P (find_mine s cx.actor a) _ λ q found.
            OnSome-guard P (is_owned q.st) _ λ owned.
              let other = apart a.name q (mine_found q found) (λ _. mine_apart q found) in
              record {
                row = find_name-remove_name n q.name s.names unique ∙ rw other k.row;
                settled = k.settled;
              }

      waterfill-Untouched :
          (rows : List SmNameRow)
          → All (Other n) rows
          → Untouched n r (waterfill cx.mtp cx.rate cx.car_value rows s)
      waterfill-Untouched rows other = record {
        row = find_name-waterfill n cx.mtp cx.rate cx.car_value rows s other ∙ k.row;
        settled = unfold waterfill in k.settled;
      }

      pub op_renew-Untouched : Untouched n r (op_renew s cx a)
      unfolding op_renew
      op_renew-Untouched =
          let P = Untouched n r in
          let buf = collect_owned cx.actor s.names in
          let all = waterfill-Untouched buf foreign in
          let sel =
            waterfill-Untouched (select a.flags 0 buf)
              (select-All (Other n) a.flags 0 buf foreign) in
          if-elim P (not a.has_anchor && length a.flags == 0) _ _ (λ _. all)
            λ _.
              if-elim P (a.has_anchor && anchor_ok s.muts cx.actor a.anchor cx.height) _ _
                (λ _. if-elim P (length a.flags == 0) _ _ (λ _. all) (λ _. sel)) (λ _. k)

      transfer_rows-Other :
          (sel_all : Bool) (flags : List ℕ) (target i : ℕ) (rs : List SmNameRow)
          (acc : List SmNameRow × ℕ)
          → All (Other n) rs
          → find_name n (transfer_rows sel_all flags target i rs acc).0 ≡ find_name n acc.0
      unfolding transfer_rows
      transfer_rows-Other sel_all flags target i [] acc o = refl
      transfer_rows-Other sel_all flags target i (q ∷ rs) acc o =
          transfer_rows-Other sel_all flags target (suc i) rs _ o.1
          ∙ if-elim (λ t. find_name n t.0 ≡ find_name n acc.0)
              ((sel_all || bit_set flags i) && is_owned q.st)
              (put_row (gifted_row target q) acc.0, suc acc.1) acc
              (λ _. find_name-put_row_ne n (gifted_row target q) acc.0 (unfold gifted_row in o.0))
              (λ _. refl)

      pub op_transfer-Untouched : OnSome (Untouched n r) (op_transfer s cx a)
      unfolding op_transfer
      op_transfer-Untouched =
          OnSome-guard (Untouched n r)
            (not a.has_anchor || anchor_ok s.muts cx.actor a.anchor cx.height) _
            λ anchored. record {
              row =
                  transfer_rows-Other (not a.has_anchor) a.flags a.addr 0
                    (collect_owned cx.actor s.names) (s.names, 0) foreign
                  ∙ k.row;
              settled = k.settled;
            }

      -- The names to release are other names.
      release_list-Other :
          (flags : List ℕ) (i : ℕ) (rs : List SmNameRow)
          → All (Other n) rs
          → All (λ m. bytes_eq m n ≡ false) (release_list flags i rs)
      unfolding release_list
      release_list-Other flags i [] o = tt
      release_list-Other flags i (q ∷ rs) o =
          if-elim (All (λ m. bytes_eq m n ≡ false)) (bit_set flags i && is_owned q.st) _ _
            (λ _. (o.0, release_list-Other flags (suc i) rs o.1))
            (λ _. release_list-Other flags (suc i) rs o.1)

      release_found-other :
          (m : List ℕ) (acc : List SmNameRow × List ℕ) (found : Option SmNameRow)
          → Unique acc.0
          → bytes_eq m n ≡ false
          → Unique (release_found m acc found).0
            × (find_name n (release_found m acc found).0 ≡ find_name n acc.0)
      unfolding release_found
      release_found-other m acc none u o = (u, refl)
      release_found-other m acc (some q) u o =
          (Unique-remove_name m acc.0 u, find_name-remove_name n m acc.0 u ∙ rw o refl)

      release_names-other :
          (ms : List (List ℕ)) (acc : List SmNameRow × List ℕ)
          → Unique acc.0
          → All (λ m. bytes_eq m n ≡ false) ms
          → find_name n (release_names ms acc).0 ≡ find_name n acc.0
      unfolding release_names
      release_names-other [] acc u o = refl
      release_names-other (m ∷ ms) acc u o =
          let h = release_found-other m acc (find_name m acc.0) u o.0 in
          release_names-other ms _ h.0 o.1 ∙ h.1

      pub op_release-Untouched : OnSome (Untouched n r) (op_release s cx a)
      unfolding op_release
      op_release-Untouched =
          let P = Untouched n r in
          OnSome-guard P a.has_anchor _ λ present.
            OnSome-guard P (anchor_ok s.muts cx.actor a.anchor cx.height) _ λ anchored. record {
              row =
                  release_names-other (release_list a.flags 0 (collect_owned cx.actor s.names))
                    (s.names, s.ev) unique
                    (release_list-Other a.flags 0 (collect_owned cx.actor s.names) foreign)
                  ∙ k.row;
              settled = k.settled;
            }
