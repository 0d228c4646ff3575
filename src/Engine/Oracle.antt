-- ===== src/Engine/Oracle.antt =====
-- The time and the rate of a block: protocol/impls/c/src/oracle.c. Timestamps and sums of money are
-- taken to be non-negative. `qsort` is by insertion: any sort gives the same list of numbers.
pub mod Rank
pub mod Medians
use namespace_indexer.Common.{
  ℕ, zero, suc, ◌-◌, ◌*◌, ◌/◌, Bool, true, false, List, [], ◌∷◌, ltb, leb, ◌==◌, if◌then◌else◌,
  length, drop,
}
use namespace_indexer.Engine.Const.{dust_floor, min_fee_sample, rate_cap, ref_size}

unfoldable pub insert : ℕ → List ℕ → List ℕ
insert x [] = x ∷ []
insert x (y ∷ ys) = let rest = insert x ys in if ltb y x then y ∷ rest else x ∷ y ∷ ys

unfoldable pub sort : List ℕ → List ℕ
unfolding insert
sort [] = []
sort (x ∷ xs) = insert x (sort xs)

-- `v[i]`, read in range.
unfoldable pub nth : ℕ → List ℕ → ℕ
nth i [] = 0
nth zero (x ∷ xs) = x
nth (suc i) (x ∷ xs) = nth i xs

-- The most recent 11 timestamps.
abbrev pub mtp_window : List ℕ → List ℕ
mtp_window ts = drop (length ts - 11) ts

unfoldable pub mtp : List ℕ → ℕ
unfolding nth sort
mtp ts = if length ts == 0 then 0 else nth (length (mtp_window ts) / 2) (sort (mtp_window ts))

-- What the oracle reads of a block: `coinbase[i]`, `subsidy[i]` and `block_bytes[i]`.
pub record OracleBlock : Type 0 where
  pub coinbase : ℕ
  pub subsidy : ℕ
  pub bytes : ℕ

-- The subtraction stops at 0, as the clamp of the source does.
unfoldable pub fee_per_byte : OracleBlock → ℕ
fee_per_byte b = (b.coinbase - b.subsidy) / (if ltb 0 b.bytes then b.bytes else 1)

-- `fpb`: the rates of the blocks that bear fees.
unfoldable pub participants : List OracleBlock → List ℕ
unfolding fee_per_byte
participants [] = []
participants (b ∷ bs) =
    let rest = participants bs in if leb 1 (fee_per_byte b) then fee_per_byte b ∷ rest else rest

-- The rent of a fee per byte, clamped.
unfoldable pub clamp_rate : ℕ → ℕ
clamp_rate med =
    let r = med * ref_size in
    let r' = if ltb r dust_floor then dust_floor else r in if ltb rate_cap r' then rate_cap else r'

unfoldable pub oracle_rate : List OracleBlock → ℕ
unfolding participants nth sort clamp_rate
oracle_rate bs =
    let fpb = participants bs in
    if ltb (length fpb) min_fee_sample
    then dust_floor
    else clamp_rate (nth ((length fpb - 1) / 2) (sort fpb))
