-- ===== src/Engine/Feed/Past.antt =====
-- The values of the oracle for a height under changes of the buffer above it (src/oracle_feed.c).
use namespace_indexer.Common.{
  ℕ, zero, suc, ◌-◌, ◌≤◌, ◌≡◌, refl, ap, sym, ◌∙◌, true, inl, inr, List, [], ◌∷◌, ◌++◌, leb,
  Bool-cases, arith,
}
use mathlib.Core.List.{reverse}
use namespace_indexer.Engine.Const.{fee_window}
use namespace_indexer.Engine.Oracle.{mtp, oracle_rate}
use namespace_indexer.Engine.Feed.{
  Blk, OracleFeed, pop_from, oracle_rollback, oracle_record, newest_times, oldest_first, fee_blocks,
  oracle_for_height,
}

module _ (k : ℕ) where
  newest_skip :
      (room : ℕ) (b : Blk) (bs : List Blk)
      → k ≤ b.height
      → newest_times room k (b ∷ bs) ≡ newest_times room k bs
  unfolding newest_times
  newest_skip zero b [] h = refl
  newest_skip zero b (c ∷ bs) h = refl
  newest_skip (suc room) b bs h = ground arith

  fee_skip :
      (room subsidy lo : ℕ) (b : Blk) (bs : List Blk)
      → k ≤ b.height
      → fee_blocks room subsidy lo k (bs ++ b ∷ []) ≡ fee_blocks room subsidy lo k bs
  unfolding fee_blocks
  fee_skip zero subsidy lo b [] h = refl
  fee_skip zero subsidy lo b (c ∷ bs) h = refl
  fee_skip (suc room) subsidy lo b [] h = ground arith
  fee_skip (suc room) subsidy lo b (c ∷ bs) h =
      rw (fee_skip room subsidy lo b bs h, fee_skip (suc room) subsidy lo b bs h) refl

  newest-pop_from :
      (room height : ℕ) (bs : List Blk)
      → k ≤ height
      → newest_times room k (pop_from height bs) ≡ newest_times room k bs
  unfolding pop_from
  newest-pop_from room height [] h = refl
  newest-pop_from room height (b ∷ bs) h = elim (Bool-cases (leb height b.height)) [
    | inl e ↦
        let le : k ≤ b.height = ground arith in
        rw e (newest-pop_from room height bs h ∙ sym (newest_skip room b bs le))
    | inr e ↦ rw e refl
  ]

  fee-pop_from :
      (room subsidy lo height : ℕ) (bs : List Blk)
      → k ≤ height
      → fee_blocks room subsidy lo k (oldest_first (pop_from height bs))
        ≡ fee_blocks room subsidy lo k (oldest_first bs)
  unfolding pop_from oldest_first
  fee-pop_from room subsidy lo height [] h = refl
  fee-pop_from room subsidy lo height (b ∷ bs) h = elim (Bool-cases (leb height b.height)) [
    | inl e ↦
        let le : k ≤ b.height = ground arith in
        rw e (
          fee-pop_from room subsidy lo height bs h
          ∙ sym (fee_skip room subsidy lo b (oldest_first bs) le))
    | inr e ↦ rw e refl
  ]

  -- Time and rate are those of two parts of the buffer.
  both_parts :
      (o p : OracleFeed)
      → newest_times 11 k o.v ≡ newest_times 11 k p.v
      → fee_blocks fee_window o.subsidy (k - fee_window) k (oldest_first o.v)
        ≡ fee_blocks fee_window p.subsidy (k - fee_window) k (oldest_first p.v)
      → oracle_for_height o k ≡ oracle_for_height p k
  unfolding oracle_for_height
  both_parts o p e f =
      ap
        (λ t. (
          mtp (reverse t),
          oracle_rate (fee_blocks fee_window o.subsidy (k - fee_window) k (oldest_first o.v)),
        ))
        e
      ∙ ap (λ t. (mtp (reverse (newest_times 11 k p.v)), oracle_rate t)) f

  -- Rolling the buffer back to a height, or recording a block of a height, changes neither the time
  -- nor the rate of that height and of those below it.
  pub oracle_for_height_past :
      (o : OracleFeed) (b : Blk)
      → k ≤ b.height
      → (oracle_for_height (oracle_rollback o b.height) k ≡ oracle_for_height o k)
        × (oracle_for_height (oracle_record o b) k ≡ oracle_for_height o k)
  unfolding oracle_rollback oracle_record oldest_first
  oracle_for_height_past o b h =
      let newest = newest-pop_from 11 b.height o.v h in
      let fees = fee-pop_from fee_window o.subsidy (k - fee_window) b.height o.v h in
      (
        both_parts (oracle_rollback o b.height) o newest fees,
        both_parts (oracle_record o b) o (newest_skip 11 b (pop_from b.height o.v) h ∙ newest) (
            fee_skip fee_window o.subsidy (k - fee_window) b (oldest_first (pop_from b.height o.v))
              h
            ∙ fees),
      )

pop_from-pop_from :
    (height : ℕ) (bs : List Blk) → pop_from height (pop_from height bs) ≡ pop_from height bs
unfolding pop_from
pop_from-pop_from height [] = refl
pop_from-pop_from height (b ∷ bs) = elim (Bool-cases (leb height b.height)) [
  | inl e ↦ rw e (pop_from-pop_from height bs)
  | inr e ↦ rw e (rw e refl)
]

-- Recording a block again, or another in its place, leaves the buffer that recording the last one
-- alone leaves.
pub oracle_record-oracle_record :
    (o : OracleFeed) (b c : Blk)
    → b.height ≡ c.height
    → oracle_record (oracle_record o b) c ≡ oracle_record o c
unfolding oracle_record oracle_rollback pop_from
oracle_record-oracle_record o b c e =
    let popped : leb c.height b.height ≡ true = ground arith in
    let again : pop_from c.height (pop_from b.height o.v) ≡ pop_from c.height o.v =
      ap (λ h. pop_from c.height (pop_from h o.v)) e ∙ pop_from-pop_from c.height o.v in
    rw popped (ap (λ t. record o { v = c ∷ t }) again)
