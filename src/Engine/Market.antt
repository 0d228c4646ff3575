-- ===== src/Engine/Market.antt =====
-- The names market: protocol/impls/c/src/market.c. A handler returns `none` where the source
-- returns early with nothing changed.
pub mod Payment
use namespace_indexer.Common.{
  ℕ, suc, ◌+◌, ◌-◌, ◌*◌, ◌/◌, ◌%◌, Bool, true, false, not, ◌&&◌, List, [], ◌∷◌, Option, none, some,
  ltb, leb, ◌==◌, if◌then◌else◌, ◌>>=◌, ◌>>◌, guard, set,
}
use namespace_indexer.Engine.Const.{
  dust_floor, sell_price_floor, reserve_window, direct_window, reorg_buffer, reserve_burn_bps,
  reserve_pay_bps, u64_mod,
}
use namespace_indexer.Engine.Event.{
  ev_sell_ok, ev_reserve_win, ev_reserve_clamp, ev_settle_ok, ev_sellto_ok, ev_pay_ok,
}
use namespace_indexer.Engine.Types.{
  SmAction, SmOut, SmTx, SmNameRow, SmNameState, SmState, SmTxCtx, is_owned, is_listed, is_offered,
  is_reserved,
}
use namespace_indexer.Engine.Name.{name_valid}
use namespace_indexer.Engine.Table.{find_name, put_row, bump_mutation, count_ev}

-- The test of the loop in `sm_consume_output`.
unfoldable pub pays : ℕ → ℕ → ℕ → SmOut → Bool
pays dest type amount o = o.value == amount && o.type == type && o.h160 == dest

-- `best` with the output at index `i` taken into account.
unfoldable pub better : ℕ → SmOut → Option (ℕ × ℕ) → Option (ℕ × ℕ)
better i o none = some (i, o.vout)
better i o (some (j, vout)) = if ltb o.vout vout then some (i, o.vout) else some (j, vout)

-- The index and the vout of the best match so far.
unfoldable pub best_output :
    ℕ → ℕ → ℕ → List SmOut → List Bool → ℕ → Option (ℕ × ℕ) → Option (ℕ × ℕ)
unfolding pays better
best_output dest type amount [] consumed i best = best
best_output dest type amount (o ∷ os) [] i best = best
best_output dest type amount (o ∷ os) (c ∷ cs) i best =
    best_output dest type amount os cs (suc i)
      (if c then best else if pays dest type amount o then better i o best else best)

-- The flags after the match, if there is one.
unfoldable pub consume_output : ℕ → ℕ → ℕ → List SmOut → List Bool → Option (List Bool)
unfolding best_output
consume_output dest type amount outs consumed =
    elim (best_output dest type amount outs consumed 0 none) [
      | none ↦ none
      | some (i, vout) ↦ some (set consumed i true)
    ]

-- The product is a 128-bit one and does not wrap; the cast to 64 bits does.
unfoldable pub deposit_leg : ℕ → ℕ → ℕ
deposit_leg price bps =
    let leg = price * bps / 10000 % u64_mod in if ltb leg dust_floor then dust_floor else leg

unfoldable pub to_owned : SmNameRow → SmNameRow
to_owned r = record r {
  st = SmNameState.owned;
  price = 0;
  offer_expiry = 0;
  reserve_expiry = 0;
  burn_leg = 0;
  pay_leg = 0;
  seller = 0;
  seller_type = 0;
  buyer = 0;
}

-- The row that a successful SELL writes, for the window `w`.
unfoldable pub listed_row : SmTxCtx → SmAction → ℕ → SmNameRow → SmNameRow
listed_row cx a w r = record r {
  st = SmNameState.listed;
  seller = cx.actor;
  seller_type = cx.actor_type;
  price = a.price;
  offer_expiry = cx.mtp + w;
  buyer = 0;
  burn_leg = 0;
  pay_leg = 0;
  reserve_expiry = 0;
}

unfoldable pub op_sell : SmState → SmTxCtx → SmAction → Option SmState
unfolding find_name put_row count_ev name_valid listed_row
op_sell s cx a = do
  guard (name_valid a.name)
  guard (leb sell_price_floor a.price)
  r ← find_name a.name s.names
  guard (is_owned r.st && r.owner == cx.actor)
  let w : ℕ = if a.window == 0 then reserve_window else a.window
  guard (leb reserve_window w)
  guard (leb (cx.mtp + w + reorg_buffer) r.lease_expiry)
  some (record s { names = put_row (listed_row cx a w r) s.names; ev = count_ev ev_sell_ok s.ev })

-- The row that a successful RESERVE writes; the window is clamped to the listing's.
unfoldable pub reserved_row : SmTxCtx → SmNameRow → SmNameRow
unfolding deposit_leg
reserved_row cx r = record r {
  st = SmNameState.reserved;
  buyer = cx.actor;
  burn_leg = deposit_leg r.price reserve_burn_bps;
  pay_leg = deposit_leg r.price reserve_pay_bps;
  reserve_expiry =
      if leb r.offer_expiry (cx.mtp + reserve_window)
      then r.offer_expiry
      else cx.mtp + reserve_window;
}

unfoldable pub op_reserve : SmState → SmTx → SmTxCtx → SmAction → Option (SmState × SmTxCtx)
unfolding find_name put_row count_ev name_valid reserved_row consume_output
op_reserve s tx cx a = do
  guard (name_valid a.name)
  r ← find_name a.name s.names
  guard (is_listed r.st)
  guard (leb (deposit_leg r.price reserve_burn_bps) cx.car_value)
  consumed ←
      consume_output r.seller r.seller_type (deposit_leg r.price reserve_pay_bps) tx.outs
        cx.out_consumed
  let ev : List ℕ =
      if leb r.offer_expiry (cx.mtp + reserve_window) then count_ev ev_reserve_clamp s.ev else s.ev
  some (
    record s { names = put_row (reserved_row cx r) s.names; ev = count_ev ev_reserve_win ev },
    record cx { out_consumed = consumed },
  )

-- Subtraction of `uint64_t`.
unfoldable pub sub64 : ℕ → ℕ → ℕ
sub64 a b = (a + u64_mod - b) % u64_mod

-- The name passes to the acting identity; the lease conveys.
unfoldable pub sold_row : SmTxCtx → SmNameRow → SmNameRow
unfolding to_owned
sold_row cx r = to_owned (record r { owner = cx.actor; owner_type = cx.actor_type })

unfoldable pub op_settle : SmState → SmTx → SmTxCtx → SmAction → Option (SmState × SmTxCtx)
unfolding find_name put_row count_ev name_valid sold_row consume_output bump_mutation sub64
op_settle s tx cx a = do
  guard (name_valid a.name)
  r ← find_name a.name s.names
  guard (is_reserved r.st)
  guard (r.buyer == cx.actor)
  guard (ltb cx.mtp r.reserve_expiry)
  let remainder : ℕ = sub64 (sub64 r.price r.burn_leg) r.pay_leg
  consumed ← consume_output r.seller r.seller_type remainder tx.outs cx.out_consumed
  some (
    record s {
      names = put_row (sold_row cx r) s.names;
      muts = bump_mutation r.seller cx.height (bump_mutation cx.actor cx.height s.muts);
      ev = count_ev ev_settle_ok s.ev;
    },
    record cx { out_consumed = consumed },
  )

unfoldable pub offered_row : SmTxCtx → SmAction → SmNameRow → SmNameRow
offered_row cx a r = record r {
  st = SmNameState.offered;
  seller = cx.actor;
  seller_type = cx.actor_type;
  buyer = a.addr;
  price = a.price;
  offer_expiry = cx.mtp + direct_window;
  burn_leg = 0;
  pay_leg = 0;
  reserve_expiry = 0;
}

unfoldable pub op_sell_to : SmState → SmTxCtx → SmAction → Option SmState
unfolding find_name put_row count_ev name_valid offered_row
op_sell_to s cx a = do
  guard (name_valid a.name)
  guard (leb dust_floor a.price)
  r ← find_name a.name s.names
  guard (is_owned r.st && r.owner == cx.actor)
  guard (leb (cx.mtp + direct_window + reorg_buffer) r.lease_expiry)
  some (record s { names = put_row (offered_row cx a r) s.names; ev = count_ev ev_sellto_ok s.ev })

unfoldable pub op_pay : SmState → SmTx → SmTxCtx → SmAction → Option (SmState × SmTxCtx)
unfolding find_name put_row count_ev name_valid sold_row consume_output bump_mutation
op_pay s tx cx a = do
  guard (name_valid a.name)
  r ← find_name a.name s.names
  guard (is_offered r.st)
  guard (r.buyer == cx.actor)
  guard (ltb cx.mtp r.offer_expiry)
  consumed ← consume_output r.seller r.seller_type r.price tx.outs cx.out_consumed
  some (
    record s {
      names = put_row (sold_row cx r) s.names;
      muts = bump_mutation r.seller cx.height (bump_mutation cx.actor cx.height s.muts);
      ev = count_ev ev_pay_ok s.ev;
    },
    record cx { out_consumed = consumed },
  )
