-- ===== src/Engine/Lease/Even.antt =====
-- The levels that the water-fill of lease.c brings the names to.
use namespace_indexer.Common.{
  ℕ, zero, suc, ◌+◌, ◌-◌, ◌/◌, ◌≤◌, ◌<◌, ◌≡◌, refl, List, [], ◌∷◌, ltb, leb, ◌==◌, arith, ltb→lt,
  All, Bool-cases, inl, inr, false,
}
use namespace_indexer.Engine.Types.{SmNameRow}
use namespace_indexer.Engine.Lease.{
  award, raw_t, new_slots, sort_rows, Slot, total_head, cap_all, active, give, pass_slots, rounds,
  last_days, fill,
}
use namespace_indexer.Engine.Lease.Bounds.{
  Fits, Fresh, given, rounds_inv, pass_slots-Fits, Fresh-total, new_slots-Fresh,
}

-- A slot is at the level, or capped below it.
abbrev pub AtLevel : ℕ → Slot → Type 0
AtLevel level x = (x.add ≤ level) × (x.add < x.head → level ≤ x.add)

-- The same, where some slots have one day more.
abbrev pub NearLevel : ℕ → Slot → Type 0
NearLevel level x = (x.add ≤ level + 1) × (x.add < x.head → level ≤ x.add)

pass-AtLevel :
    (share level : ℕ) (xs : List Slot)
    → All (AtLevel level) xs
    → All Fits xs
    → All (AtLevel (level + share)) (pass_slots share xs)
unfolding pass_slots give
pass-AtLevel share level [] a f = tt
pass-AtLevel share level (x ∷ xs) a f =
    ((ground arith, λ h. ground arith), pass-AtLevel share level xs a.1 f.1)

Levelled : ℕ → List Slot → Type 0
Levelled pool xs = (level : ℕ) × All (AtLevel level) xs × All Fits xs

pass-Levelled :
    (pool : ℕ) (xs : List Slot)
    → (active xs == 0) ≡ false
    → (pool / active xs == 0) ≡ false
    → Levelled pool xs
    → Levelled (pool - given (pool / active xs) xs) (pass_slots (pool / active xs) xs)
unfolding Levelled
pass-Levelled pool xs a s (level, at, fits) =
    let share = pool / active xs in
    (level + share, pass-AtLevel share level xs at fits, pass_slots-Fits share xs fits)

Fresh-AtLevel : (xs : List Slot) → All Fresh xs → All (AtLevel 0) xs
Fresh-AtLevel [] a = tt
Fresh-AtLevel (x ∷ xs) a = ((omega (arith, a.0), λ _. omega arith), Fresh-AtLevel xs a.1)

AtLevel-NearLevel : (level : ℕ) (xs : List Slot) → All (AtLevel level) xs → All (NearLevel level) xs
AtLevel-NearLevel level [] a = tt
AtLevel-NearLevel level (x ∷ xs) a = ((omega (arith, a.0.0), a.0.1), AtLevel-NearLevel level xs a.1)

last_days-NearLevel :
    (level pool : ℕ) (xs : List Slot)
    → All (AtLevel level) xs
    → All (NearLevel level) (last_days pool xs)
unfolding last_days
last_days-NearLevel level pool [] a = tt
last_days-NearLevel level zero (x ∷ xs) a = AtLevel-NearLevel level (x ∷ xs) a
last_days-NearLevel level (suc pool) (x ∷ xs) a = elim (Bool-cases (ltb x.add x.head)) [
  | inl e ↦ rw e (
    (omega (arith, a.0.0), λ h. let h' = a.0.1 (ltb→lt x.add x.head e) in omega (arith, h')),
    last_days-NearLevel level pool xs a.1,
  )
  | inr e ↦ rw e ((omega (arith, a.0.0), a.0.1), last_days-NearLevel level (suc pool) xs a.1)
]

NearLevel-mono :
    (low high : ℕ) (xs : List Slot)
    → low ≤ high
    → All (λ x. (x.add ≡ x.head) × (x.add ≤ low)) xs
    → All (NearLevel high) xs
NearLevel-mono low high [] h a = tt
NearLevel-mono low high (x ∷ xs) h a = (
  (omega (arith, a.0.1, h), λ less. absurd (omega (arith, less, a.0.0))),
  NearLevel-mono low high xs h a.1,
)

cap_all-below :
    (high : ℕ) (xs : List Slot)
    → total_head xs ≤ high
    → All (λ x. (x.add ≡ x.head) × (x.add ≤ high)) (cap_all xs)
unfolding cap_all total_head
cap_all-below high [] h = tt
cap_all-below high (x ∷ xs) h = ((refl, omega arith), cap_all-below high xs (omega arith))

after_rounds :
    (pool : ℕ) (xs : List Slot)
    → Levelled pool xs
    → (level : ℕ) × All (NearLevel level) (last_days pool xs)
unfolding Levelled
after_rounds pool xs (level, at, _) = (level, last_days-NearLevel level pool xs at)

-- The award is even: there is a level such that no slot is above it by more than a day, and none
-- that keeps headroom is below it.
pub fill_even :
    (t : ℕ) (xs : List Slot) → All Fresh xs → (level : ℕ) × All (NearLevel level) (fill t xs)
unfolding fill
fill_even t xs fresh = elim (Bool-cases (leb (total_head xs) t)) [
  | inl e ↦ rw e (
    total_head xs,
    NearLevel-mono (total_head xs) (total_head xs) (cap_all xs) (omega arith)
        (cap_all-below (total_head xs) xs (omega arith)),
  )
  | inr e ↦
      let start : Levelled t xs =
        unfold Levelled in (0, Fresh-AtLevel xs fresh, (Fresh-total xs fresh).1) in
      let (levelled, _) = rounds_inv Levelled pass-Levelled (suc t) t xs (omega arith) start in
      let r = rounds (suc t) t xs in rw e (after_rounds r.0 r.1 levelled)
]

-- The days of a burn are spread evenly: there is a level such that no name is awarded more than a
-- day above it, and every name that keeps headroom is awarded at least the level.
pub award_even :
    (now rate burn : ℕ) (rows : List SmNameRow)
    → (level : ℕ) × All (NearLevel level) (award now rate burn rows)
unfolding award
award_even now rate burn rows =
    fill_even (raw_t burn rate) (new_slots now (sort_rows rows))
      (new_slots-Fresh now (sort_rows rows))
