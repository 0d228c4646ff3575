-- ===== src/Engine/Oracle/Rank.antt =====
-- What a place in the sorted list means for the list itself (oracle.c).
use namespace_indexer.Common.{
  ℕ, zero, suc, ◌+◌, ◌≤◌, ◌<◌, ◌≡◌, refl, ap, ◌∙◌, subst, inl, inr, List, [], ◌∷◌, ltb, ◌==◌,
  if◌then◌else◌, Bool-cases, arith, All, length,
}
use namespace_indexer.Engine.Oracle.{insert, sort, nth}

-- How many members are below, above and equal to `m`.
unfoldable pub below : ℕ → List ℕ → ℕ
below m [] = 0
below m (x ∷ xs) = (if ltb x m then 1 else 0) + below m xs

unfoldable pub above : ℕ → List ℕ → ℕ
above m [] = 0
above m (x ∷ xs) = (if ltb m x then 1 else 0) + above m xs

unfoldable pub equal : ℕ → List ℕ → ℕ
equal m [] = 0
equal m (x ∷ xs) = (if x == m then 1 else 0) + equal m xs

-- `m` is a member with at most `i` members below it, and at least `i` members beside it that are
-- not above it.
pub record Rank (i : ℕ) (xs : List ℕ) (m : ℕ) : Type 0 where
  pub member : 1 ≤ equal m xs
  pub lower : below m xs ≤ i
  pub upper : above m xs + suc i ≤ length xs

length-insert : (x : ℕ) (ys : List ℕ) → length (insert x ys) ≡ suc (length ys)
unfolding insert
length-insert x [] = refl
length-insert x (y ∷ ys) = ground (arith, length-insert x ys)

length-sort : (xs : List ℕ) → length (sort xs) ≡ length xs
unfolding sort
length-sort [] = refl
length-sort (x ∷ xs) = length-insert x (sort xs) ∙ ap suc (length-sort xs)

below-insert : (m x : ℕ) (ys : List ℕ) → below m (insert x ys) ≡ below m (x ∷ ys)
unfolding insert below
below-insert m x [] = refl
below-insert m x (y ∷ ys) = ground (arith, below-insert m x ys)

above-insert : (m x : ℕ) (ys : List ℕ) → above m (insert x ys) ≡ above m (x ∷ ys)
unfolding insert above
above-insert m x [] = refl
above-insert m x (y ∷ ys) = ground (arith, above-insert m x ys)

equal-insert : (m x : ℕ) (ys : List ℕ) → equal m (insert x ys) ≡ equal m (x ∷ ys)
unfolding insert equal
equal-insert m x [] = refl
equal-insert m x (y ∷ ys) = ground (arith, equal-insert m x ys)

below-sort : (m : ℕ) (xs : List ℕ) → below m (sort xs) ≡ below m xs
unfolding sort below
below-sort m [] = refl
below-sort m (x ∷ xs) = omega (arith, below-insert m x (sort xs), below-sort m xs)

above-sort : (m : ℕ) (xs : List ℕ) → above m (sort xs) ≡ above m xs
unfolding sort above
above-sort m [] = refl
above-sort m (x ∷ xs) = omega (arith, above-insert m x (sort xs), above-sort m xs)

equal-sort : (m : ℕ) (xs : List ℕ) → equal m (sort xs) ≡ equal m xs
unfolding sort equal
equal-sort m [] = refl
equal-sort m (x ∷ xs) = omega (arith, equal-insert m x (sort xs), equal-sort m xs)

abbrev pub Ascending : List ℕ → Type 0
Ascending [] = Unit {0}
Ascending (x ∷ xs) = All (λ y. x ≤ y) xs × Ascending xs

All-insert : (P : ℕ → Type 0) (x : ℕ) (ys : List ℕ) → P x → All P ys → All P (insert x ys)
unfolding insert
All-insert P x [] p a = (p, tt)
All-insert P x (y ∷ ys) p a = elim (Bool-cases (ltb y x)) [
  | inl e ↦ rw e (a.0, All-insert P x ys p a.1)
  | inr e ↦ rw e (p, a)
]

All-weaken : (x y : ℕ) (ys : List ℕ) → x ≤ y → All (λ z. y ≤ z) ys → All (λ z. x ≤ z) ys
All-weaken x y [] h a = tt
All-weaken x y (z ∷ ys) h a = (omega (arith, a.0), All-weaken x y ys h a.1)

insert-Ascending : (x : ℕ) (ys : List ℕ) → Ascending ys → Ascending (insert x ys)
unfolding insert
insert-Ascending x [] a = (tt, tt)
insert-Ascending x (y ∷ ys) a = elim (Bool-cases (ltb y x)) [
  | inl e ↦
      let le : y ≤ x = ground arith in
      rw e (All-insert (λ z. y ≤ z) x ys le a.0, insert-Ascending x ys a.1)
  | inr e ↦ let le : x ≤ y = ground arith in rw e ((le, All-weaken x y ys le a.0), a)
]

sort-Ascending : (xs : List ℕ) → Ascending (sort xs)
unfolding sort
sort-Ascending [] = tt
sort-Ascending (x ∷ xs) = insert-Ascending x (sort xs) (sort-Ascending xs)

none_below : (m : ℕ) (xs : List ℕ) → All (λ y. m ≤ y) xs → below m xs ≡ 0
unfolding below
none_below m [] a = refl
none_below m (x ∷ xs) a = let le = a.0 in ground (arith, none_below m xs a.1)

above_le : (m : ℕ) (xs : List ℕ) → above m xs ≤ length xs
unfolding above
above_le m [] = omega arith
above_le m (x ∷ xs) = ground (arith, above_le m xs)

nth-All : (P : ℕ → Type 0) (i : ℕ) (xs : List ℕ) → i < length xs → All P xs → P (nth i xs)
unfolding nth
nth-All P i [] h a = absurd (omega arith)
nth-All P zero (x ∷ xs) h a = a.0
nth-All P (suc i) (x ∷ xs) h a = nth-All P i xs (omega arith) a.1

nth-Rank : (i : ℕ) (xs : List ℕ) → i < length xs → Ascending xs → Rank i xs (nth i xs)
unfolding nth below above equal
nth-Rank i [] h a = absurd (omega arith)
nth-Rank zero (x ∷ xs) h a = record {
  member = ground arith;
  lower = let e = none_below x xs a.0 in ground arith;
  upper = let e = above_le x xs in ground arith;
}
nth-Rank (suc i) (x ∷ xs) h a =
    let r : Rank i xs (nth i xs) = nth-Rank i xs (omega arith) a.1 in
    let le : x ≤ nth i xs = nth-All (λ y. x ≤ y) i xs (omega arith) a.0 in
    let member = r.member in
    let lower = r.lower in
    let upper = r.upper in
    record { member = ground arith; lower = ground arith; upper = ground arith }

-- The element at an index of the sorted list has that rank in the list.
pub sorted_Rank : (i : ℕ) (xs : List ℕ) → i < length xs → Rank i xs (nth i (sort xs))
sorted_Rank i xs h =
    let m = nth i (sort xs) in
    let len = length-sort xs in
    let r : Rank i (sort xs) m = nth-Rank i (sort xs) (omega arith) (sort-Ascending xs) in
    record {
      member = subst (λ k. 1 ≤ k) (equal-sort m xs) r.member;
      lower = subst (λ k. k ≤ i) (below-sort m xs) r.lower;
      upper = let e = above-sort m xs in let u = r.upper in omega arith;
    }
