-- ===== src/Engine/Invariant/Sale.antt =====
-- What a completed sale does (market.c): who buys, what is paid, and what stays as it was.
use namespace_indexer.Common.{
  ℕ, ◌+◌, ◌-◌, ◌≤◌, ◌<◌, ◌≡◌, ◌≢◌, refl, ◌∙◌, sym, subst, Bool, true, inl, inr, List, some, ltb,
  ltb→lt, ◌==◌, ==_iff, arith, bytes_eq_iff, get_elem?, false, length, OnSome, OnSome-guard,
  OnSome-bind, OnSome-result,
}
use namespace_indexer.Engine.Const.{
  dust_floor, sell_price_floor, reserve_burn_bps, reserve_pay_bps, u64_mod,
}
use namespace_indexer.Engine.Types.{
  SmAction, SmOut, SmTx, SmNameRow, SmState, SmTxCtx, is_owned, is_offered, is_reserved,
}
use namespace_indexer.Engine.Name.{name_valid}
use namespace_indexer.Engine.Table.{find_name, put_row, last_mutation, bump_mutation}
use namespace_indexer.Engine.Table.Laws.{
  find_name-name, find_name-put_row, find_name-put_row_ne, All-find_name,
}
use namespace_indexer.Engine.Market.{
  deposit_leg, pays, consume_output, sub64, sold_row, op_settle, op_pay,
}
use namespace_indexer.Engine.Table.Bumps.{bumped_self, bumped_other}
use namespace_indexer.Engine.Market.Payment.{consume_output_lem}
use namespace_indexer.Engine.Invariant.{RowOk, Inv}

deposit_leg-bounds :
    (price : ℕ)
    → sell_price_floor ≤ price
    → price < u64_mod
    → deposit_leg price reserve_burn_bps + deposit_leg price reserve_pay_bps + dust_floor ≤ price
unfolding deposit_leg
deposit_leg-bounds price floor word = ground arith

sub64-exact : (a b : ℕ) → b ≤ a → a < u64_mod → sub64 a b ≡ a - b
unfolding sub64
sub64-exact a b h word = omega arith

-- For a reserved row in order the 64-bit subtractions do not wrap: the remainder and the two legs
-- are the price, and something is left to pay.
pub remainder-exact :
    (now : ℕ) (r : SmNameRow)
    → RowOk now r
    → is_reserved r.st ≡ true
    → (sub64 (sub64 r.price r.burn_leg) r.pay_leg + r.burn_leg + r.pay_leg ≡ r.price)
      × (dust_floor ≤ sub64 (sub64 r.price r.burn_leg) r.pay_leg)
remainder-exact now r ok reserved =
    let floor : sell_price_floor ≤ r.price = ok.priced (ground arith) (ground arith) in
    let b = deposit_leg-bounds r.price floor ok.word in
    let e1 = ok.burned reserved in
    let e2 = ok.paid reserved in
    let s1 = sub64-exact r.price r.burn_leg (omega (arith, e1, e2, b)) ok.word in
    let s2 =
      sub64-exact (r.price - r.burn_leg) r.pay_leg (omega (arith, e1, e2, b))
        (omega (arith, ok.word)) in
    rw s1 (rw s2 (omega (arith, e1, e2, b), omega (arith, e1, e2, b)))

-- The row `q` is the name of `r` in the hands of the actor: its lease is as before, it is plain
-- owned, and nothing is left of the offer.
pub record Handed (cx : SmTxCtx) (r q : SmNameRow) : Type 0 where
  pub name : q.name ≡ r.name
  pub owner : q.owner ≡ cx.actor
  pub owner_type : q.owner_type ≡ cx.actor_type
  pub lease : q.lease_expiry ≡ r.lease_expiry
  pub plain : is_owned q.st ≡ true
  pub parties : (q.seller ≡ 0) × (q.seller_type ≡ 0) × (q.buyer ≡ 0)
  pub sums : (q.price ≡ 0) × (q.burn_leg ≡ 0) × (q.pay_leg ≡ 0)
  pub times : (q.offer_expiry ≡ 0) × (q.reserve_expiry ≡ 0)

-- Output `i` of the transaction pays the seller `due`, neither more nor less, and was not consumed
-- before.
pub record PaysSeller (tx : SmTx) (cx : SmTxCtx) (r : SmNameRow) (due i : ℕ) : Type 0 where
  pub output : SmOut
  pub there : get_elem? tx.outs i ≡ some output
  pub free : get_elem? cx.out_consumed i ≡ some false
  pub value : output.value ≡ due
  pub type : output.type ≡ r.seller_type
  pub seller : output.h160 ≡ r.seller

-- A sale of the row `r` for a last payment of `due` to its seller.
pub record Sold (s : SmState) (tx : SmTx) (cx : SmTxCtx) (a : SmAction) (r : SmNameRow) (due : ℕ)
    (s' : SmState) : Type 0 where
  pub listed_row : find_name a.name s.names ≡ some r
  pub buyer : r.buyer ≡ cx.actor
  pub payment : (i : ℕ) × PaysSeller tx cx r due i
  pub moved : (q : SmNameRow) × (find_name a.name s'.names ≡ some q) × Handed cx r q
  pub others : (n : List ℕ) → n ≢ a.name → find_name n s'.names ≡ find_name n s.names
  pub bumped :
      (cx.height ≤ last_mutation cx.actor s'.muts) × (cx.height ≤ last_mutation r.seller s'.muts)

paid :
    (tx : SmTx) (cx : SmTxCtx) (r : SmNameRow) (due : ℕ) (flags : List Bool)
    → length tx.outs ≡ length cx.out_consumed
    → consume_output r.seller r.seller_type due tx.outs cx.out_consumed ≡ some flags
    → (i : ℕ) × PaysSeller tx cx r due i
unfolding pays
paid tx cx r due flags e h =
    elim (consume_output_lem r.seller r.seller_type due tx.outs cx.out_consumed e) [
      | inl (absent, _) ↦ absurd (ground arith)
      | inr (i, o, p, _, _) ↦
          let match = p.exact in
          (
            i,
            record {
              output = o;
              there = p.there;
              free = p.free;
              value = ground arith;
              type = ground arith;
              seller = ground arith;
            },
          )
    ]

handed : (cx : SmTxCtx) (r : SmNameRow) → Handed cx r (sold_row cx r)
unfolding sold_row
handed cx r = record {
  name = refl;
  owner = refl;
  owner_type = refl;
  lease = refl;
  plain = refl;
  parties = (refl, refl, refl);
  sums = (refl, refl, refl);
  times = (refl, refl);
}

module _ (now : ℕ) (s : SmState) (tx : SmTx) (cx : SmTxCtx) (a : SmAction) (v : Inv now s)
    (e : length tx.outs ≡ length cx.out_consumed) where
  sold :
      (r : SmNameRow) (due : ℕ) (flags : List Bool) (ev : List ℕ)
      → find_name a.name s.names ≡ some r
      → (r.buyer == cx.actor) ≡ true
      → consume_output r.seller r.seller_type due tx.outs cx.out_consumed ≡ some flags
      → Sold s tx cx a r due (record s {
        names = put_row (sold_row cx r) s.names;
        muts = bump_mutation r.seller cx.height (bump_mutation cx.actor cx.height s.muts);
        ev = ev;
      })
  unfolding sold_row
  sold r due flags ev found buyer match =
      let same : r.name ≡ a.name = find_name-name a.name s.names r found in
      let there : find_name r.name s.names ≡ some r =
        subst (λ n. find_name n s.names ≡ some r) (sym same) found in
      record {
        listed_row = found;
        buyer = (==_iff r.buyer cx.actor).0 buyer;
        payment = paid tx cx r due flags e match;
        moved = (
          sold_row cx r,
          find_name-put_row a.name (sold_row cx r) s.names r there
              ∙ rw ((bytes_eq_iff r.name a.name).1 same) refl,
          handed cx r,
        );
        others = λ n d.
            find_name-put_row_ne n (sold_row cx r) s.names
              (ground (arith, bytes_eq_iff r.name n, d));
        bumped = (
          bumped_other cx.actor r.seller cx.height cx.height
              (bump_mutation cx.actor cx.height s.muts) (bumped_self cx.actor cx.height s.muts),
          bumped_self r.seller cx.height (bump_mutation cx.actor cx.height s.muts),
        );
      }

  -- A completed SETTLE.
  pub record Settled (w : SmState × SmTxCtx) : Type 0 where
    pub row : SmNameRow
    pub reserved : is_reserved row.st ≡ true
    pub early : cx.mtp < row.reserve_expiry
    pub due : ℕ
    pub split : due + row.burn_leg + row.pay_leg ≡ row.price
    pub some_due : dust_floor ≤ due
    pub sale : Sold s tx cx a row due w.0

  op_settle-cases : OnSome Settled (op_settle s tx cx a)
  unfolding op_settle
  op_settle-cases = OnSome-guard Settled (name_valid a.name) _ λ valid.
      OnSome-bind Settled (find_name a.name s.names) _ λ r found.
        OnSome-guard Settled (is_reserved r.st) _ λ reserved.
          OnSome-guard Settled (r.buyer == cx.actor) _ λ buyer.
            OnSome-guard Settled (ltb cx.mtp r.reserve_expiry) _ λ early.
              OnSome-bind Settled
                (consume_output r.seller r.seller_type (sub64 (sub64 r.price r.burn_leg) r.pay_leg)
                  tx.outs cx.out_consumed)
                _
                λ flags match.
                  let exact =
                    remainder-exact now r (All-find_name (RowOk now) a.name s.names r v.rows found)
                      reserved in
                  record {
                    row = r;
                    reserved = reserved;
                    early = ltb→lt cx.mtp r.reserve_expiry early;
                    due = sub64 (sub64 r.price r.burn_leg) r.pay_leg;
                    split = exact.0;
                    some_due = exact.1;
                    sale = sold r _ flags _ found buyer match;
                  }

  -- Where the invariant holds, a SETTLE that goes through sells a reserved name, before its
  -- deadline, to the reserver: one output pays the seller exactly the price less the two deposit
  -- legs, to the seller's type of address and not consumed before; the reserver owns the name
  -- plainly, with the lease as before and the offer cleared; all other names are as before, and
  -- both parties' mutation heights reach the block.
  pub op_settle-Settled : (w : SmState × SmTxCtx) → op_settle s tx cx a ≡ some w → Settled w
  op_settle-Settled w h = OnSome-result Settled (op_settle s tx cx a) w op_settle-cases h

  -- A completed PAY.
  pub record Paid (w : SmState × SmTxCtx) : Type 0 where
    pub row : SmNameRow
    pub offered : is_offered row.st ≡ true
    pub early : cx.mtp < row.offer_expiry
    pub sale : Sold s tx cx a row row.price w.0

  op_pay-cases : OnSome Paid (op_pay s tx cx a)
  unfolding op_pay
  op_pay-cases = OnSome-guard Paid (name_valid a.name) _ λ valid.
      OnSome-bind Paid (find_name a.name s.names) _ λ r found.
        OnSome-guard Paid (is_offered r.st) _ λ offered.
          OnSome-guard Paid (r.buyer == cx.actor) _ λ buyer.
            OnSome-guard Paid (ltb cx.mtp r.offer_expiry) _ λ early.
              OnSome-bind Paid
                (consume_output r.seller r.seller_type r.price tx.outs cx.out_consumed) _
                λ flags match. record {
                  row = r;
                  offered = offered;
                  early = ltb→lt cx.mtp r.offer_expiry early;
                  sale = sold r r.price flags _ found buyer match;
                }

  -- A PAY that goes through sells an offered name, before the offer closes, to the named buyer: one
  -- output pays the seller exactly the whole price, to the seller's type of address and not
  -- consumed before; the buyer owns the name plainly, with the lease as before and the offer
  -- cleared; all other names are as before, and both parties' mutation heights reach the block.
  pub op_pay-Paid : (w : SmState × SmTxCtx) → op_pay s tx cx a ≡ some w → Paid w
  op_pay-Paid w h = OnSome-result Paid (op_pay s tx cx a) w op_pay-cases h
