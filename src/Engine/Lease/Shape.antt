-- ===== src/Engine/Lease/Shape.antt =====
-- The rows and headrooms of the slots through the water-fill of lease.c.
use namespace_indexer.Common.{
  ℕ, zero, suc, ◌/◌, ◌≡◌, refl, ap, ◌∙◌, List, [], ◌∷◌, ltb, leb, arith, if-elim, length, suc, All,
  Bool-cases, inl, inr,
}
use namespace_indexer.Engine.Types.{SmNameRow}
use namespace_indexer.Engine.Lease.{
  Slot, total_head, cap_all, active, pass_slots, rounds, last_days, fill,
}
use namespace_indexer.Engine.Lease.Bounds.{rounds_inv}

-- What is known of the row and the headroom of each slot stays so.
module _ {ℓ} (P : SmNameRow → ℕ → Type ℓ) where
  abbrev pub Of : Slot → Type ℓ
  Of x = P x.row x.head

  pass_slots-Of : (share : ℕ) (xs : List Slot) → All Of xs → All Of (pass_slots share xs)
  unfolding pass_slots
  pass_slots-Of share [] a = tt
  pass_slots-Of share (x ∷ xs) a = (a.0, pass_slots-Of share xs a.1)

  cap_all-Of : (xs : List Slot) → All Of xs → All Of (cap_all xs)
  unfolding cap_all
  cap_all-Of [] a = tt
  cap_all-Of (x ∷ xs) a = (a.0, cap_all-Of xs a.1)

  last_days-Of : (pool : ℕ) (xs : List Slot) → All Of xs → All Of (last_days pool xs)
  unfolding last_days
  last_days-Of pool [] a = tt
  last_days-Of zero (x ∷ xs) a = a
  last_days-Of (suc pool) (x ∷ xs) a = elim (Bool-cases (ltb x.add x.head)) [
    | inl e ↦ rw e (a.0, last_days-Of pool xs a.1)
    | inr e ↦ rw e (a.0, last_days-Of (suc pool) xs a.1)
  ]

  pub fill-Of : (t : ℕ) (xs : List Slot) → All Of xs → All Of (fill t xs)
  unfolding fill
  fill-Of t xs a = elim (Bool-cases (leb (total_head xs) t)) [
    | inl e ↦ rw e (cap_all-Of xs a)
    | inr e ↦
        let r =
          rounds_inv (λ pool ys. All Of ys) (λ pool ys _ _. pass_slots-Of (pool / active ys) ys)
            (suc t) t xs (omega arith) a in
        rw e (last_days-Of (rounds (suc t) t xs).0 (rounds (suc t) t xs).1 r.0)
  ]

-- No slot is added or dropped.
length-pass_slots : (share : ℕ) (xs : List Slot) → length (pass_slots share xs) ≡ length xs
unfolding pass_slots
length-pass_slots share [] = refl
length-pass_slots share (x ∷ xs) = ap suc (length-pass_slots share xs)

length-cap_all : (xs : List Slot) → length (cap_all xs) ≡ length xs
unfolding cap_all
length-cap_all [] = refl
length-cap_all (x ∷ xs) = ap suc (length-cap_all xs)

length-last_days : (pool : ℕ) (xs : List Slot) → length (last_days pool xs) ≡ length xs
unfolding last_days
length-last_days pool [] = refl
length-last_days zero (x ∷ xs) = refl
length-last_days (suc pool) (x ∷ xs) =
    if-elim {A = List Slot} (λ t. length t ≡ suc (length xs)) (ltb x.add x.head) _ _
      (λ _. ap suc (length-last_days pool xs)) (λ _. ap suc (length-last_days (suc pool) xs))

pub length-fill : (t : ℕ) (xs : List Slot) → length (fill t xs) ≡ length xs
unfolding fill
length-fill t xs =
    if-elim {A = List Slot} (λ ys. length ys ≡ length xs) (leb (total_head xs) t) _ _
      (λ _. length-cap_all xs)
      λ _.
        let r =
          rounds_inv (λ pool ys. length ys ≡ length xs)
            (λ pool ys _ _ e. length-pass_slots (pool / active ys) ys ∙ e) (suc t) t xs
            (omega arith) refl in
        length-last_days (rounds (suc t) t xs).0 (rounds (suc t) t xs).1 ∙ r.0
