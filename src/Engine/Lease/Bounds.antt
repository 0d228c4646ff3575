-- ===== src/Engine/Lease/Bounds.antt =====
-- The days that the water-fill of lease.c awards, and the end of its loop.
use namespace_indexer.Common.{
  ℕ, zero, suc, ◌+◌, ◌-◌, ◌*◌, ◌/◌, ◌≤◌, ◌<◌, ◌≡◌, ◌⊎◌, refl, ap, List, [], ◌∷◌, ltb, leb, ◌==◌,
  min, arith, suc, leb→le, All, Bool-cases, inl, inr, true, false,
}
use namespace_indexer.Engine.Types.{SmNameRow}
use namespace_indexer.Engine.Lease.{
  Slot, new_slots, total_head, cap_all, active, give, pass_slots, pass_pool, rounds, last_days,
  fill, award, raw_t, sort_rows,
}

unfoldable pub total_add : List Slot → ℕ
total_add [] = 0
total_add (x ∷ xs) = x.add + total_add xs

pub given : ℕ → List Slot → ℕ
given share [] = 0
given share (x ∷ xs) = give share x + given share xs

abbrev pub Fits : Slot → Type 0
Fits x = x.add ≤ x.head

pub total_add-pass_slots :
    (share : ℕ) (xs : List Slot) → total_add (pass_slots share xs) ≡ total_add xs + given share xs
unfolding total_add pass_slots given
total_add-pass_slots share [] = refl
total_add-pass_slots share (x ∷ xs) = omega (arith, total_add-pass_slots share xs)

total_head-pass_slots :
    (share : ℕ) (xs : List Slot) → total_head (pass_slots share xs) ≡ total_head xs
unfolding total_head pass_slots
total_head-pass_slots share [] = refl
total_head-pass_slots share (x ∷ xs) = omega (arith, total_head-pass_slots share xs)

pass_pool-eq-sub-given :
    (share pool : ℕ) (xs : List Slot) → pass_pool share pool xs ≡ pool - given share xs
unfolding pass_pool given
pass_pool-eq-sub-given share pool [] = omega arith
pass_pool-eq-sub-given share pool (x ∷ xs) =
    omega (arith, pass_pool-eq-sub-given share (pool - give share x) xs)

given-le : (share : ℕ) (xs : List Slot) → given share xs ≤ active xs * share
unfolding given active give
given-le share [] = omega arith
given-le share (x ∷ xs) = ground (arith, given-le share xs)

active-le-given : (share : ℕ) (xs : List Slot) → 0 < share → active xs ≤ given share xs
unfolding given active give
active-le-given share [] h = omega arith
active-le-given share (x ∷ xs) h = ground (arith, active-le-given share xs h)

pub pass_slots-Fits : (share : ℕ) (xs : List Slot) → All Fits xs → All Fits (pass_slots share xs)
unfolding pass_slots give
pass_slots-Fits share [] a = tt
pass_slots-Fits share (x ∷ xs) a = (ground arith, pass_slots-Fits share xs a.1)

-- The loop has ended by one of its tests.
abbrev pub Stopped : ℕ → List Slot → Type 0
Stopped pool xs = (active xs ≡ 0) ⊎ (pool < active xs)

share_facts :
    (pool : ℕ) (xs : List Slot)
    → (active xs == 0) ≡ false
    → (pool / active xs == 0) ≡ false
    → (0 < pool / active xs) × (0 < active xs) × (pool / active xs * active xs ≤ pool)
share_facts pool xs a s = (ground arith, ground arith, omega arith)

-- A round hands out at least a day, and no more than the pool.
pub round-given :
    (pool : ℕ) (xs : List Slot)
    → (active xs == 0) ≡ false
    → (pool / active xs == 0) ≡ false
    → (given (pool / active xs) xs ≤ pool) × (0 < given (pool / active xs) xs)
round-given pool xs a s =
    let (positive, some_active, within) = share_facts pool xs a s in
    let share = pool / active xs in
    (omega (arith, given-le share xs), omega (arith, active-le-given share xs positive))

exhausted :
    (pool : ℕ) (xs : List Slot)
    → (active xs == 0) ≡ false
    → (pool / active xs == 0) ≡ true
    → pool < active xs
exhausted pool xs a s =
    let none_left : pool / active xs ≡ 0 = ground arith in
    let positive : 0 < active xs = ground arith in
    omega (arith, ap (λ (q : ℕ). active xs * q) none_left)

shorter :
    (pool : ℕ) (xs : List Slot) (fuel : ℕ)
    → (active xs == 0) ≡ false
    → (pool / active xs == 0) ≡ false
    → pool < suc fuel
    → pool - given (pool / active xs) xs < fuel
shorter pool xs fuel a s h = omega (arith, round-given pool xs a s)

-- The invariant rule of the loop: with more fuel than days in the pool it ends by its own test.
pub rounds_inv {ℓ} :
    (P : ℕ → List Slot → Type ℓ)
    → ((pool : ℕ) (xs : List Slot)
        → (active xs == 0) ≡ false
        → (pool / active xs == 0) ≡ false
        → P pool xs
        → P (pool - given (pool / active xs) xs) (pass_slots (pool / active xs) xs))
    → (fuel pool : ℕ) (xs : List Slot) → pool < fuel
    → P pool xs
    → P (rounds fuel pool xs).0 (rounds fuel pool xs).1
      × Stopped (rounds fuel pool xs).0 (rounds fuel pool xs).1
unfolding rounds
rounds_inv P keep zero pool xs h p = elim h [ ]
rounds_inv P keep (suc fuel) pool xs h p = elim (Bool-cases (active xs == 0)) [
  | inl none_active ↦ rw none_active (p, inl (ground arith))
  | inr some_active ↦ rw some_active (elim (Bool-cases (pool == 0)) [
    | inl empty ↦ rw empty (p, inr (ground arith))
    | inr left ↦ rw left (elim (Bool-cases (pool / active xs == 0)) [
      | inl small ↦ rw small (p, inr (exhausted pool xs some_active small))
      | inr more ↦ rw more (
          rw (pass_pool-eq-sub-given (pool / active xs) pool xs) (
            rounds_inv P keep fuel _ _ (shorter pool xs fuel some_active more h)
              (keep pool xs some_active more p)))
    ])
  ])
]

-- The days still to hand out and those handed out make up the purchase.
record Balance (t head pool : ℕ) (xs : List Slot) : Type 0 where
  days : total_add xs + pool ≡ t
  same_head : total_head xs ≡ head
  fits : All Fits xs

pass-Balance :
    (t head pool : ℕ) (xs : List Slot)
    → (active xs == 0) ≡ false
    → (pool / active xs == 0) ≡ false
    → Balance t head pool xs
    → Balance t head (pool - given (pool / active xs) xs) (pass_slots (pool / active xs) xs)
pass-Balance t head pool xs a s b =
    let share = pool / active xs in
    record {
      days = omega (arith, total_add-pass_slots share xs, round-given pool xs a s, b.days);
      same_head = omega (arith, total_head-pass_slots share xs, b.same_head);
      fits = pass_slots-Fits share xs b.fits;
    }

total_add-of-inactive :
    (xs : List Slot) → All Fits xs → active xs ≡ 0 → total_add xs ≡ total_head xs
unfolding total_add total_head active
total_add-of-inactive [] a h = refl
total_add-of-inactive (x ∷ xs) a h = ground (arith, total_add-of-inactive xs a.1)

total_add-last_days :
    (pool : ℕ) (xs : List Slot)
    → pool ≤ active xs
    → total_add (last_days pool xs) ≡ total_add xs + pool
unfolding total_add active last_days
total_add-last_days zero [] h = refl
total_add-last_days (suc pool) [] h = elim h [ ]
total_add-last_days zero (x ∷ xs) h = omega arith
total_add-last_days (suc pool) (x ∷ xs) h =
    ground (arith, total_add-last_days pool xs, total_add-last_days (suc pool) xs)

last_days-Fits : (pool : ℕ) (xs : List Slot) → All Fits xs → All Fits (last_days pool xs)
unfolding last_days
last_days-Fits pool [] a = tt
last_days-Fits zero (x ∷ xs) a = a
last_days-Fits (suc pool) (x ∷ xs) a = elim (Bool-cases (ltb x.add x.head)) [
  | inl e ↦ rw e (ground arith, last_days-Fits pool xs a.1)
  | inr e ↦ rw e (a.0, last_days-Fits (suc pool) xs a.1)
]

cap_all-Fits : (xs : List Slot) → All Fits (cap_all xs)
unfolding cap_all
cap_all-Fits [] = tt
cap_all-Fits (x ∷ xs) = (omega arith, cap_all-Fits xs)

total_add-cap_all : (xs : List Slot) → total_add (cap_all xs) ≡ total_head xs
unfolding total_add total_head cap_all
total_add-cap_all [] = refl
total_add-cap_all (x ∷ xs) = omega (arith, total_add-cap_all xs)

-- No slot is awarded a day.
abbrev pub Fresh : Slot → Type 0
Fresh x = x.add ≡ 0

pub Fresh-total : (xs : List Slot) → All Fresh xs → (total_add xs ≡ 0) × All Fits xs
unfolding total_add
Fresh-total [] a = (refl, tt)
Fresh-total (x ∷ xs) a =
    let rest = Fresh-total xs a.1 in (omega (arith, a.0, rest.0), (omega (arith, a.0), rest.1))

-- Where the purchase is below the headroom, the loop ends with less than a day for each slot that
-- still has headroom.
rounds-Balance :
    (t : ℕ) (xs : List Slot)
    → All Fresh xs
    → t < total_head xs
    → Balance t (total_head xs) (rounds (suc t) t xs).0 (rounds (suc t) t xs).1
      × ((rounds (suc t) t xs).0 < active (rounds (suc t) t xs).1)
rounds-Balance t xs fresh h =
    let start = Fresh-total xs fresh in
    let (b, stop) =
      rounds_inv (Balance t (total_head xs)) (pass-Balance t (total_head xs)) (suc t) t xs
        (omega arith)
        (record { days = omega (arith, start.0); same_head = refl; fits = start.1 }) in
    (
      b,
      elim stop [
        | inl full ↦ absurd (
            omega (
              arith,
              b.days,
              b.same_head,
              total_add-of-inactive (rounds (suc t) t xs).1 b.fits full,
            ))
        | inr small ↦ small
      ],
    )

-- The days awarded are the days bought, up to the headroom of all the slots together; no slot is
-- awarded more than its own headroom.
pub fill-conserves :
    (t : ℕ) (xs : List Slot)
    → All Fresh xs
    → (total_add (fill t xs) ≡ min t (total_head xs)) × All Fits (fill t xs)
unfolding fill
fill-conserves t xs fresh = elim (Bool-cases (leb (total_head xs) t)) [
  | inl e ↦ rw e (
    let le = leb→le (total_head xs) t e in omega (arith, total_add-cap_all xs, le),
    cap_all-Fits xs,
  )
  | inr e ↦
      let lt : t < total_head xs = ground arith in
      let (b, small) = rounds-Balance t xs fresh lt in
      let r = rounds (suc t) t xs in
      rw e (
        omega (arith, total_add-last_days r.0 r.1, b.days, small, lt),
        last_days-Fits r.0 r.1 b.fits,
      )
]

pub new_slots-Fresh : (now : ℕ) (rs : List SmNameRow) → All Fresh (new_slots now rs)
unfolding new_slots
new_slots-Fresh now [] = tt
new_slots-Fresh now (r ∷ rs) = (refl, new_slots-Fresh now rs)

-- A burn buys exactly the whole days of the rate: the days awarded to the names together are those
-- bought, or the names' whole headroom if that is less, and no name is awarded more than its own
-- headroom.
pub award-conserves :
    (now rate burn : ℕ) (rows : List SmNameRow)
    → (total_add (award now rate burn rows)
        ≡ min (raw_t burn rate) (total_head (new_slots now (sort_rows rows))))
      × All Fits (award now rate burn rows)
unfolding award
award-conserves now rate burn rows =
    fill-conserves (raw_t burn rate) (new_slots now (sort_rows rows))
      (new_slots-Fresh now (sort_rows rows))

-- The loop of the water-fill ends by its own test: with one round of fuel for each day of the pool
-- and one more, no slot is active or the pool is less than a day for each active slot.
pub rounds-Stopped :
    (pool : ℕ) (xs : List Slot)
    → Stopped (rounds (suc pool) pool xs).0 (rounds (suc pool) pool xs).1
rounds-Stopped pool xs =
    (rounds_inv (λ _ _. Unit {0}) (λ _ _ _ _ _. tt) (suc pool) pool xs (omega arith) tt).1
