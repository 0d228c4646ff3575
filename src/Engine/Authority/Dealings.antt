-- ===== src/Engine/Authority/Dealings.antt =====
-- A plain owned name of another owner under the market handlers on locked names, the claim and the
-- trade.
use namespace_indexer.Common.{
  ℕ, ◌≡◌, ◌≢◌, refl, ap, ◌∙◌, true, false, ◌&&◌, ◌||◌, List, [], ◌∷◌, none, some, ltb, leb, ◌==◌,
  arith, Bool-cases, Option-cases, inl, inr, bytes_eq, bytes_eq_iff, OnSome, OnSome-guard,
  OnSome-bind,
}
use namespace_indexer.Engine.Const.{reserve_burn_bps, reserve_pay_bps}
use namespace_indexer.Engine.Event.{ev_claim_mint, ev_claim_displace}
use namespace_indexer.Engine.Types.{
  SmAction, SmTx, SmNameRow, SmState, SmTxCtx, SmClaimWin, is_owned, is_listed, is_offered,
  is_reserved,
}
use namespace_indexer.Engine.Name.{name_valid}
use namespace_indexer.Engine.Table.{find_name, put_row, add_name, zero_row, find_scratch}
use namespace_indexer.Engine.Table.Laws.{
  find_name-name, find_name-put_row_ne, find_name-add_name, find_scratch-set_scratch,
}
use namespace_indexer.Engine.Lease.{waterfill, lease_covers_day}
use namespace_indexer.Engine.Lease.Write.{find_name-waterfill}
use namespace_indexer.Engine.Market.{
  deposit_leg, consume_output, sub64, op_reserve, op_settle, op_pay, reserved_row, sold_row,
}
use namespace_indexer.Engine.Claim.{
  op_claim, displace, mint, finish_claim, claimed_row, claim_win, earliest_commit, commit_preimage,
}
use namespace_indexer.Engine.Authority.{Untouched}
use namespace_indexer.Engine.Authority.Handlers.{put_Untouched, locked_apart}

module _ (n : List ℕ) (r : SmNameRow) (own : is_owned r.st ≡ true) where
  module _ (s : SmState) (cx : SmTxCtx) (a : SmAction) (k : Untouched n r s)
      (d : r.owner ≢ cx.actor) (tx : SmTx) where
    abbrev Kept : SmState × SmTxCtx → Type 0
    Kept w = Untouched n r w.0 × ((w.1.actor ≡ cx.actor) × (w.1.actor_valid ≡ cx.actor_valid))

    pub op_reserve-Untouched : OnSome Kept (op_reserve s tx cx a)
    unfolding op_reserve
    op_reserve-Untouched = OnSome-guard Kept (name_valid a.name) _ λ valid.
        OnSome-bind Kept (find_name a.name s.names) _ λ q found.
          OnSome-guard Kept (is_listed q.st) _ λ listed.
            OnSome-guard Kept (leb (deposit_leg q.price reserve_burn_bps) cx.car_value) _ λ burn.
              OnSome-bind Kept
                (consume_output q.seller q.seller_type (deposit_leg q.price reserve_pay_bps) tx.outs
                  cx.out_consumed)
                _
                λ consumed paid. (
                  put_Untouched n r own s cx a k d a.name q (reserved_row cx q) _ found
                      (locked_apart n r own s cx a k d q (ground arith))
                      (unfold reserved_row in refl) refl refl,
                  (refl, refl),
                )

    pub op_settle-Untouched : OnSome Kept (op_settle s tx cx a)
    unfolding op_settle
    op_settle-Untouched = OnSome-guard Kept (name_valid a.name) _ λ valid.
        OnSome-bind Kept (find_name a.name s.names) _ λ q found.
          OnSome-guard Kept (is_reserved q.st) _ λ reserved.
            OnSome-guard Kept (q.buyer == cx.actor) _ λ buyer.
              OnSome-guard Kept (ltb cx.mtp q.reserve_expiry) _ λ early.
                OnSome-bind Kept
                  (consume_output q.seller q.seller_type
                    (sub64 (sub64 q.price q.burn_leg) q.pay_leg) tx.outs cx.out_consumed)
                  _
                  λ consumed paid. (
                    put_Untouched n r own s cx a k d a.name q (sold_row cx q) _ found
                        (locked_apart n r own s cx a k d q (ground arith)) (unfold sold_row in refl)
                        refl refl,
                    (refl, refl),
                  )

    pub op_pay-Untouched : OnSome Kept (op_pay s tx cx a)
    unfolding op_pay
    op_pay-Untouched = OnSome-guard Kept (name_valid a.name) _ λ valid.
        OnSome-bind Kept (find_name a.name s.names) _ λ q found.
          OnSome-guard Kept (is_offered q.st) _ λ offered.
            OnSome-guard Kept (q.buyer == cx.actor) _ λ buyer.
              OnSome-guard Kept (ltb cx.mtp q.offer_expiry) _ λ early.
                OnSome-bind Kept
                  (consume_output q.seller q.seller_type q.price tx.outs cx.out_consumed) _
                  λ consumed paid. (
                    put_Untouched n r own s cx a k d a.name q (sold_row cx q) _ found
                        (locked_apart n r own s cx a k d q (ground arith)) (unfold sold_row in refl)
                        refl refl,
                    (refl, refl),
                  )

  -- A claim: of another name, or refused.
  finish-Untouched :
      (s t : SmState) (cx : SmTxCtx) (a : SmAction) (ch ti event : ℕ) (q : SmNameRow)
      → q.name ≡ a.name
      → bytes_eq a.name n ≡ false
      → Untouched n r t
      → Untouched n r (finish_claim cx a ch ti event q t)
  unfolding finish_claim
  finish-Untouched s t cx a ch ti event q named other k =
      let apart = ap (λ m. bytes_eq m n) named ∙ other in
      record {
        row = find_name-waterfill n cx.mtp cx.rate cx.car_value (q ∷ []) t (apart, tt) ∙ k.row;
        settled =
            find_scratch-set_scratch n (claim_win cx a ch ti)
              (waterfill cx.mtp cx.rate cx.car_value (q ∷ []) t).claimsc
            ∙ rw other (unfold waterfill in k.settled);
      }

  module _ (sha256 : List ℕ → ℕ) (s : SmState) (cx : SmTxCtx) (a : SmAction)
      (k : Untouched n r s) where
    displace-Untouched :
        (ch ti : ℕ) (row : SmNameRow)
        → find_name a.name s.names ≡ some row
        → OnSome (Untouched n r) (displace s cx a ch ti row)
    unfolding displace
    displace-Untouched ch ti row found =
        let P = Untouched n r in
        let q : SmNameRow = claimed_row cx row in
        OnSome-bind P (find_scratch a.name s.claimsc) _ λ scr fresh.
          OnSome-guard P (is_owned row.st && row.owner == scr.owner) _ λ owned.
            OnSome-guard P
              (ltb ch scr.commit_height || ch == scr.commit_height && ltb ti scr.commit_tx_index) _
              λ prior.
                let named : q.name ≡ a.name = find_name-name a.name s.names row found in
                let other = not_settled scr fresh in
                finish-Untouched s (record s { names = put_row q s.names }) cx a ch ti
                  ev_claim_displace q named other
                  (record {
                    row =
                        find_name-put_row_ne n q s.names (ap (λ m. bytes_eq m n) named ∙ other)
                        ∙ k.row;
                    settled = k.settled;
                  })
      where
        not_settled :
            (scr : SmClaimWin)
            → find_scratch a.name s.claimsc ≡ some scr
            → bytes_eq a.name n ≡ false
        not_settled scr fresh = elim (Bool-cases (bytes_eq a.name n)) [
          | inl e ↦
              let same = (bytes_eq_iff a.name n).0 e in
              let there = ap (λ m. find_scratch m s.claimsc) same in
              let none_there = k.settled in absurd (cc)
          | inr e ↦ e
        ]

    mint-Untouched :
        (ch ti : ℕ) → find_name a.name s.names ≡ none → Untouched n r (mint s cx a ch ti)
    unfolding mint
    mint-Untouched ch ti absent =
        let q : SmNameRow = claimed_row cx (zero_row a.name) in
        let named : q.name ≡ a.name = unfold zero_row in refl in
        let other : bytes_eq a.name n ≡ false = elim (Bool-cases (bytes_eq a.name n)) [
          | inl e ↦
              let same = (bytes_eq_iff a.name n).0 e in
              let there = ap (λ m. find_name m s.names) same in let row = k.row in absurd (cc)
          | inr e ↦ e
        ] in
        finish-Untouched s (record s { names = add_name q s.names }) cx a ch ti ev_claim_mint q
          named other
          (record {
            row =
                find_name-add_name n q s.names (ap (λ m. find_name m s.names) named ∙ absent)
                ∙ rw (ap (λ m. bytes_eq m n) named ∙ other) k.row;
            settled = k.settled;
          })

    pub op_claim-Untouched : OnSome (Untouched n r) (op_claim sha256 s cx a)
    unfolding op_claim
    op_claim-Untouched =
        let P = Untouched n r in
        OnSome-guard P (name_valid a.name) _ λ valid.
          OnSome-bind P
            (earliest_commit cx.height (sha256 (commit_preimage a.salt a.name cx.actor)) s.commits
              none)
            _
            λ best backed. OnSome-guard P (lease_covers_day cx.car_value cx.rate) _ λ covered.
              elim (Option-cases (find_name a.name s.names)) [
                | inl absent ↦ rw absent (mint-Untouched best.0 best.1 absent)
                | inr (row, found) ↦ rw found (displace-Untouched best.0 best.1 row found)
              ]
