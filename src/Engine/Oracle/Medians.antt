-- ===== src/Engine/Oracle/Medians.antt =====
-- The time and the rate of oracle.c as ranks in their windows.
use namespace_indexer.Common.{
  ℕ, ◌-◌, ◌*◌, ◌/◌, ◌≤◌, ◌<◌, ◌≡◌, refl, false, ◌⊎◌, inl, inr, List, ltb, ◌==◌, Bool-cases, arith,
  length, length-drop, min, max,
}
use namespace_indexer.Engine.Const.{dust_floor, min_fee_sample, rate_cap, ref_size}
use namespace_indexer.Engine.Oracle.{
  sort, nth, mtp_window, mtp, OracleBlock, participants, clamp_rate, oracle_rate,
}
use namespace_indexer.Engine.Oracle.Rank.{Rank, sorted_Rank}

-- With at least one timestamp, the median time is one of the last eleven: at most half of these are
-- earlier, and fewer than half are later.
pub mtp-Rank :
    (ts : List ℕ) → 0 < length ts → Rank (length (mtp_window ts) / 2) (mtp_window ts) (mtp ts)
unfolding mtp
mtp-Rank ts h =
    let some_left = length-drop (length ts - 11) ts in
    rw (let e : (length ts == 0) ≡ false = ground arith in e)
      (sorted_Rank (length (mtp_window ts) / 2) (mtp_window ts) (omega arith))

clamp_rate-min : (med : ℕ) → clamp_rate med ≡ min rate_cap (max dust_floor (med * ref_size))
unfolding clamp_rate
clamp_rate-min med = ground arith

-- The rate of a window: the floor if too few blocks bear fees; else it comes from a fee per byte of
-- the participants, such that at most half of the others are below it.
abbrev pub RateFrom : List ℕ → ℕ → Type 0
RateFrom fpb rate =
    ((length fpb < min_fee_sample) × (rate ≡ dust_floor))
    ⊎ ((min_fee_sample ≤ length fpb)
        × ((med : ℕ) × Rank ((length fpb - 1) / 2) fpb med
            × (rate ≡ min rate_cap (max dust_floor (med * ref_size)))))

-- The rate lies from the floor to the cap. With fewer than 1000 blocks that bear fees it is the
-- floor; with 1000 or more it is 200 times the lower median of their fees per byte, clamped.
pub oracle_rate-RateFrom :
    (bs : List OracleBlock)
    → (dust_floor ≤ oracle_rate bs)
      × (oracle_rate bs ≤ rate_cap)
      × RateFrom (participants bs) (oracle_rate bs)
unfolding oracle_rate
oracle_rate-RateFrom bs = elim (Bool-cases (ltb (length (participants bs)) min_fee_sample)) [
  | inl few ↦ rw few (omega arith, omega arith, inl (ground arith, refl))
  | inr enough ↦
      let fpb = participants bs in
      let many : min_fee_sample ≤ length fpb = ground arith in
      let med = nth ((length fpb - 1) / 2) (sort fpb) in
      let e = clamp_rate-min med in
      rw enough (
        omega arith,
        omega arith,
        inr (many, (med, sorted_Rank ((length fpb - 1) / 2) fpb (omega arith), e)),
      )
]
