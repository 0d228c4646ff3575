-- ===== src/Engine/Const.antt =====
-- The protocol constants of protocol/impls/c/src/sm.h: prices in koinu, times in seconds, ages in
-- blocks. A number that C keeps in a signed 64-bit variable is a natural number here; the model
-- takes heights, times and rates to be non-negative and their sums to fit 64 bits.
use namespace_indexer.Common.{ℕ, ◌*◌, ◌^◌}

abbrev pub koinu_per_doge : ℕ
koinu_per_doge = 100000000

abbrev pub dust_floor : ℕ
dust_floor = 1

abbrev pub rate_cap : ℕ
rate_cap = koinu_per_doge

abbrev pub ref_size : ℕ
ref_size = 200

abbrev pub fee_window : ℕ
fee_window = 10081

abbrev pub min_fee_sample : ℕ
min_fee_sample = 1000

abbrev pub lease_quantum : ℕ
lease_quantum = 2419200

abbrev pub billing_unit : ℕ
billing_unit = 86400

abbrev pub max_lease : ℕ
max_lease = 31536000

abbrev pub commit_expiry : ℕ
commit_expiry = 18000

abbrev pub reserve_window : ℕ
reserve_window = 18000

abbrev pub direct_window : ℕ
direct_window = 7200

abbrev pub reorg_buffer : ℕ
reorg_buffer = 7200

abbrev pub reserve_burn_bps : ℕ
reserve_burn_bps = 50

abbrev pub reserve_pay_bps : ℕ
reserve_pay_bps = 50

abbrev pub max_anchor_age : ℕ
max_anchor_age = 1024

abbrev pub sell_price_floor : ℕ
sell_price_floor = 3 * dust_floor

abbrev pub name_max : ℕ
name_max = 32

-- The number of values of a `uint64_t`.
abbrev pub u64_mod : ℕ
u64_mod = 2 ^ 64
