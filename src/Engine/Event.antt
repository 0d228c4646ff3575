-- ===== src/Engine/Event.antt =====
-- The coverage counters of protocol/impls/c/src/sm.h, by their index.
use namespace_indexer.Common.{ℕ}

abbrev pub ev_claim_mint : ℕ
ev_claim_mint = 0

abbrev pub ev_claim_displace : ℕ
ev_claim_displace = 1

abbrev pub ev_waterfill_cap : ℕ
ev_waterfill_cap = 2

abbrev pub ev_waterfill_forfeit : ℕ
ev_waterfill_forfeit = 3

abbrev pub ev_reserve_win : ℕ
ev_reserve_win = 4

abbrev pub ev_reserve_clamp : ℕ
ev_reserve_clamp = 5

abbrev pub ev_settle_ok : ℕ
ev_settle_ok = 6

abbrev pub ev_pay_ok : ℕ
ev_pay_ok = 7

abbrev pub ev_trade_ok : ℕ
ev_trade_ok = 8

abbrev pub ev_lapse : ℕ
ev_lapse = 9

abbrev pub ev_release_name : ℕ
ev_release_name = 10

abbrev pub ev_as_drop : ℕ
ev_as_drop = 11

abbrev pub ev_sell_ok : ℕ
ev_sell_ok = 12

abbrev pub ev_sellto_ok : ℕ
ev_sellto_ok = 13
