-- ===== src/Engine/Invariant/Sets.antt =====
-- The invariant under the handlers that write several rows (bitmap.c, trade.c) and those that mint
-- (claim.c).
use namespace_indexer.Common.{
  ℕ, suc, ◌≡◌, refl, Bool, true, not, ◌&&◌, ◌||◌, List, [], ◌∷◌, Option, none, some, ltb, ◌==◌,
  if-elim, arith, All, Bool-cases, Option-cases, inl, inr, OnSome, OnSome-guard, OnSome-bind,
  get_elem?, bytes_eq, length,
}
use namespace_indexer.Engine.Event.{ev_claim_mint, ev_claim_displace}
use namespace_indexer.Engine.Types.{SmAction, SmTx, SmNameRow, SmState, SmTxCtx, is_owned}
use namespace_indexer.Engine.Name.{name_valid}
use namespace_indexer.Engine.Table.{find_name, put_row, add_name, zero_row, find_scratch}
use namespace_indexer.Engine.Table.Laws.{
  Unique, Unique-put_row, Unique-add_name, Unique-remove_name, All-find_name, All-put_row,
  All-add_name, All-remove_name,
}
use namespace_indexer.Engine.Lease.{waterfill, lease_covers_day}
use namespace_indexer.Engine.Lease.Write.{sort_rows-All}
use namespace_indexer.Engine.Claim.{
  op_claim, displace, mint, finish_claim, claimed_row, earliest_commit, commit_preimage,
}
use namespace_indexer.Engine.Trade.{op_trade}
use namespace_indexer.Engine.Bitmap.{
  controls, mine, collect_owned, select, op_renew, transfer_rows, op_transfer, release_found,
  release_names, op_release, gifted_row, bit_set, anchor_ok, release_list,
}
use namespace_indexer.Engine.Invariant.{RowOk, Inv}
use namespace_indexer.Engine.Invariant.Rows.{
  moved_row-RowOk, gifted_row-RowOk, claimed_row-RowOk, zero_row-RowOk,
}
use namespace_indexer.Engine.Invariant.Ops.{waterfill-Inv, put_found, held}

module _ {ℓ} (P : SmNameRow → Type ℓ) where
  mine-All : (who : ℕ) (rs : List SmNameRow) → All P rs → All P (mine who rs)
  unfolding mine
  mine-All who [] a = tt
  mine-All who (r ∷ rs) a = elim (Bool-cases (controls who r)) [
    | inl e ↦ rw e (a.0, mine-All who rs a.1)
    | inr e ↦ rw e (mine-All who rs a.1)
  ]

  pub collect_owned-All : (who : ℕ) (rs : List SmNameRow) → All P rs → All P (collect_owned who rs)
  unfolding collect_owned
  collect_owned-All who rs a = sort_rows-All P (mine who rs) (mine-All who rs a)

  pub select-All :
      (flags : List ℕ) (i : ℕ) (rs : List SmNameRow) → All P rs → All P (select flags i rs)
  unfolding select
  select-All flags i [] a = tt
  select-All flags i (r ∷ rs) a = elim (Bool-cases (bit_set flags i)) [
    | inl e ↦ rw e (a.0, select-All flags (suc i) rs a.1)
    | inr e ↦ rw e (select-All flags (suc i) rs a.1)
  ]

module _ (now : ℕ) where
  -- The table alone.
  abbrev Ok : List SmNameRow → Type 0
  Ok names = Unique names × All (RowOk now) names

  transfer_rows-Ok :
      (sel_all : Bool) (flags : List ℕ) (target i : ℕ) (rs : List SmNameRow)
      (acc : List SmNameRow × ℕ)
      → All (RowOk now) rs
      → Ok acc.0
      → Ok (transfer_rows sel_all flags target i rs acc).0
  unfolding transfer_rows
  transfer_rows-Ok sel_all flags target i [] acc a ok = ok
  transfer_rows-Ok sel_all flags target i (r ∷ rs) acc a ok =
      transfer_rows-Ok sel_all flags target (suc i) rs _ a.1 (
        if-elim (λ t. Ok t.0) ((sel_all || bit_set flags i) && is_owned r.st)
          (put_row (gifted_row target r) acc.0, suc acc.1) acc
          (λ e. (
            Unique-put_row (gifted_row target r) acc.0 ok.0,
            All-put_row (RowOk now) (gifted_row target r) acc.0
                (gifted_row-RowOk now r target (ground arith) a.0) ok.1,
          ))
          (λ _. ok))

  release_found-Ok :
      (n : List ℕ) (acc : List SmNameRow × List ℕ) (found : Option SmNameRow)
      → Ok acc.0
      → Ok (release_found n acc found).0
  unfolding release_found
  release_found-Ok n acc none ok = ok
  release_found-Ok n acc (some r) ok =
      (Unique-remove_name n acc.0 ok.0, All-remove_name (RowOk now) n acc.0 ok.1)

  release_names-Ok :
      (ns : List (List ℕ)) (acc : List SmNameRow × List ℕ) → Ok acc.0 → Ok (release_names ns acc).0
  unfolding release_names
  release_names-Ok [] acc ok = ok
  release_names-Ok (n ∷ ns) acc ok =
      release_names-Ok ns _ (release_found-Ok n acc (find_name n acc.0) ok)

  module _ (s : SmState) (cx : SmTxCtx) (a : SmAction) (v : Inv now s) where
    pub op_renew-Inv : cx.mtp ≡ now → Inv now (op_renew s cx a)
    unfolding op_renew
    op_renew-Inv e =
        let owned = collect_owned-All (RowOk now) cx.actor s.names v.rows in
        let buf = collect_owned cx.actor s.names in
        let all : Inv now (waterfill cx.mtp cx.rate cx.car_value buf s) =
          rw e (waterfill-Inv now s cx.rate cx.car_value buf v owned) in
        let sel : Inv now (waterfill cx.mtp cx.rate cx.car_value (select a.flags 0 buf) s) = rw e (
          waterfill-Inv now s cx.rate cx.car_value (select a.flags 0 buf) v
            (select-All (RowOk now) a.flags 0 buf owned)) in
        if-elim (Inv now) (not a.has_anchor && length a.flags == 0) _ _ (λ _. all)
          λ _.
            if-elim (Inv now) (a.has_anchor && anchor_ok s.muts cx.actor a.anchor cx.height) _ _
              (λ _. if-elim (Inv now) (length a.flags == 0) _ _ (λ _. all) (λ _. sel)) (λ _. v)

    pub op_transfer-Inv : OnSome (Inv now) (op_transfer s cx a)
    unfolding op_transfer
    op_transfer-Inv =
        OnSome-guard (Inv now) (not a.has_anchor || anchor_ok s.muts cx.actor a.anchor cx.height) _
          λ anchored.
            let ok =
              transfer_rows-Ok (not a.has_anchor) a.flags a.addr 0 (collect_owned cx.actor s.names)
                (s.names, 0) (collect_owned-All (RowOk now) cx.actor s.names v.rows)
                (v.unique, v.rows) in
            record { unique = ok.0; rows = ok.1; clock = v.clock }

    pub op_release-Inv : OnSome (Inv now) (op_release s cx a)
    unfolding op_release
    op_release-Inv = OnSome-guard (Inv now) a.has_anchor _ λ present.
        OnSome-guard (Inv now) (anchor_ok s.muts cx.actor a.anchor cx.height) _ λ anchored.
          let ok =
            release_names-Ok (release_list a.flags 0 (collect_owned cx.actor s.names))
              (s.names, s.ev) (v.unique, v.rows) in
          record { unique = ok.0; rows = ok.1; clock = v.clock }

    pub op_trade-Inv : (tx : SmTx) → OnSome (Inv now) (op_trade s tx cx a)
    unfolding op_trade
    op_trade-Inv tx = OnSome-bind (Inv now) (get_elem? tx.inputs a.idx_a) _ λ pa input_a.
        OnSome-bind (Inv now) (get_elem? tx.inputs a.idx_b) _ λ pb input_b.
          OnSome-guard (Inv now) (not (a.idx_a == a.idx_b)) _ λ two.
            OnSome-guard (Inv now) (pa.sighash_all && pb.sighash_all) _ λ signed.
              OnSome-guard (Inv now) (name_valid a.name && name_valid a.name_b) _ λ valid.
                OnSome-guard (Inv now) (not (bytes_eq a.name a.name_b)) _ λ distinct.
                  OnSome-bind (Inv now) (find_name a.name s.names) _ λ ra found_a.
                    OnSome-bind (Inv now) (find_name a.name_b s.names) _ λ rb found_b.
                      OnSome-guard (Inv now) (is_owned ra.st && ra.owner == pa.h160) _ λ own_a.
                        OnSome-guard (Inv now) (is_owned rb.st && rb.owner == pb.h160) _ λ own_b.
                          let ra' : SmNameRow = record ra {
                            owner = pb.h160;
                            owner_type = pb.type;
                          } in
                          let rb' : SmNameRow = record rb {
                            owner = pa.h160;
                            owner_type = pa.type;
                          } in
                          let (u, rs) = put_found now s a.name ra ra' v found_a (
                            moved_row-RowOk now ra pb.h160 pb.type (held now ra pa.h160 own_a).0) in
                          let ok =
                            moved_row-RowOk now rb pa.h160 pa.type (held now rb pb.h160 own_b).0
                              (All-find_name (RowOk now) a.name_b s.names rb v.rows found_b) in
                          record {
                            unique = Unique-put_row rb' (put_row ra' s.names) u;
                            rows = All-put_row (RowOk now) rb' (put_row ra' s.names) ok rs;
                            clock = v.clock;
                          }

    finish_claim-Inv :
        (t : SmState) (ch ti event : ℕ) (r : SmNameRow)
        → cx.mtp ≡ now
        → RowOk now r
        → Inv now t
        → Inv now (finish_claim cx a ch ti event r t)
    unfolding finish_claim
    finish_claim-Inv t ch ti event r e ok vt =
        let w = waterfill-Inv now t cx.rate cx.car_value (r ∷ []) vt (ok, tt) in
        let u : Inv now (waterfill cx.mtp cx.rate cx.car_value (r ∷ []) t) = rw e w in
        record { unique = u.unique; rows = u.rows; clock = u.clock }

    displace-Inv :
        (ch ti : ℕ) (row : SmNameRow)
        → cx.mtp ≡ now
        → find_name a.name s.names ≡ some row
        → OnSome (Inv now) (displace s cx a ch ti row)
    unfolding displace
    displace-Inv ch ti row e found =
        OnSome-bind (Inv now) (find_scratch a.name s.claimsc) _ λ scr fresh.
          OnSome-guard (Inv now) (is_owned row.st && row.owner == scr.owner) _ λ own.
            OnSome-guard (Inv now)
              (ltb ch scr.commit_height || ch == scr.commit_height && ltb ti scr.commit_tx_index) _
              λ prior.
                let r : SmNameRow = claimed_row cx row in
                let ok =
                  claimed_row-RowOk now cx row e (held now row scr.owner own).0
                    (All-find_name (RowOk now) a.name s.names row v.rows found) in
                finish_claim-Inv (record s { names = put_row r s.names }) ch ti ev_claim_displace r
                  e ok
                  (record {
                    unique = Unique-put_row r s.names v.unique;
                    rows = All-put_row (RowOk now) r s.names ok v.rows;
                    clock = v.clock;
                  })

    mint-Inv :
        (ch ti : ℕ)
        → cx.mtp ≡ now
        → name_valid a.name ≡ true
        → find_name a.name s.names ≡ none
        → Inv now (mint s cx a ch ti)
    unfolding mint zero_row
    mint-Inv ch ti e valid absent =
        let r : SmNameRow = claimed_row cx (zero_row a.name) in
        let ok =
          claimed_row-RowOk now cx (zero_row a.name) e refl (zero_row-RowOk now a.name valid) in
        finish_claim-Inv (record s { names = add_name r s.names }) ch ti ev_claim_mint r e ok
          (record {
            unique = Unique-add_name r s.names absent v.unique;
            rows = All-add_name (RowOk now) r s.names ok v.rows;
            clock = v.clock;
          })

    pub op_claim-Inv :
        (sha256 : List ℕ → ℕ) → cx.mtp ≡ now → OnSome (Inv now) (op_claim sha256 s cx a)
    unfolding op_claim
    op_claim-Inv sha256 e = OnSome-guard (Inv now) (name_valid a.name) _ λ valid.
        OnSome-bind (Inv now)
          (earliest_commit cx.height (sha256 (commit_preimage a.salt a.name cx.actor)) s.commits
            none)
          _
          λ best backed. OnSome-guard (Inv now) (lease_covers_day cx.car_value cx.rate) _ λ covered.
            elim (Option-cases (find_name a.name s.names)) [
              | inl absent ↦ rw absent (mint-Inv best.0 best.1 e valid absent)
              | inr (row, found) ↦ rw found (displace-Inv best.0 best.1 row e found)
            ]
