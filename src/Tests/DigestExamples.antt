-- ===== src/Tests/DigestExamples.antt =====
-- The digest of two states at concrete inputs, with a sort by insertion as `qsort`.
use namespace_indexer.Common.{
  ◌≡◌, ◌↔◌, refl, ap, sym, false, List, [], ◌∷◌, if◌then◌else◌, Bool-cases, inl, inr, arith,
}
use mathlib.Core.Bool.{Bool-set}
use mathlib.Core.List.{Mem, Perm, Pairwise, forall_mem-cons, not-mem-nil}
use mathlib.Core.List.Perm
use native.Mathlib.Bridge.{le_prop}
use namespace_indexer.Engine.Types.{SmState, SmMut}
use namespace_indexer.Engine.Table.{new_state}
use namespace_indexer.Engine.Digest.{
  Before, StrictOrder, IsOrdered, Qsort, state_bytes, state_digest,
}
use namespace_indexer.Engine.Digest.Fields.{MutFits}
use namespace_indexer.Engine.Digest.Keys.{Digestible}
use namespace_indexer.Engine.Digest.Agreement.{SameTables, state_bytes-SameTables}
use namespace_indexer.Tests.Scenario.{toy_hash}

module _ {A : Type 0} (before : Before A) where
  unfoldable place : A → List A → List A
  place x [] = x ∷ []
  place x (y ∷ ys) = let rest = place x ys in if before y x then y ∷ rest else x ∷ y ∷ ys

  unfoldable by_insertion : List A → List A
  unfolding place
  by_insertion [] = []
  by_insertion (x ∷ xs) = place x (by_insertion xs)

  place-perm : (x : A) (ys : List A) → Perm (place x ys) (x ∷ ys)
  unfolding place
  place-perm x [] = Perm.rfl
  place-perm x (y ∷ ys) = elim (Bool-cases (before y x)) [
    | inl e ↦ rw e (Perm.trans (Perm.cons y (place-perm x ys)) (Perm.swap x y ys))
    | inr e ↦ rw e Perm.rfl
  ]

  by_insertion-perm : (xs : List A) → Perm (by_insertion xs) xs
  unfolding by_insertion
  by_insertion-perm [] = Perm.rfl
  by_insertion-perm (x ∷ xs) =
      Perm.trans (place-perm x (by_insertion xs)) (Perm.cons x (by_insertion-perm xs))

  module _ (so : StrictOrder before) where
    beside :
        (a x : A) (xs : List A)
        → before x a ≡ false
        → ((z : A) → Mem z xs → before z a ≡ false)
        → (z : A) → Mem z (x ∷ xs)
        → before z a ≡ false
    beside a x xs h k = (forall_mem-cons λ z. Bool-set (before z a) false).1 (h, k)

    place-IsOrdered : (x : A) (ys : List A) → IsOrdered before ys → IsOrdered before (place x ys)
    unfolding place
    place-IsOrdered x [] s = Pairwise.cons (λ z m. absurd (not-mem-nil m)) Pairwise.nil
    place-IsOrdered x (y ∷ ys) (Pairwise.cons h s) = elim (Bool-cases (before y x)) [
      | inl e ↦ rw e (
          Pairwise.cons
            (λ z m. beside y x ys (so.asym y x e) h z ((Perm.mem_iff (place-perm x ys)).0 m))
            (place-IsOrdered x ys s))
      | inr e ↦
          rw e
            (Pairwise.cons (beside x y ys e (λ z m. so.weak z y x (h z m) e)) (Pairwise.cons h s))
    ]

    by_insertion-IsOrdered : (xs : List A) → IsOrdered before (by_insertion xs)
    unfolding by_insertion
    by_insertion-IsOrdered [] = Pairwise.nil
    by_insertion-IsOrdered (x ∷ xs) =
        place-IsOrdered x (by_insertion xs) (by_insertion-IsOrdered xs)

insertion_qsort : Qsort
insertion_qsort = record {
  sort = by_insertion;
  perm = by_insertion-perm;
  ordered = λ before xs so. by_insertion-IsOrdered before so xs;
}

early : SmMut
early = record { owner = 5; height = 10 }

late : SmMut
late = record { owner = 3; height = 20 }

early_first : SmState
early_first = record (new_state 0) { muts = early ∷ late ∷ [] }

late_first : SmState
late_first = record (new_state 0) { muts = late ∷ early ∷ [] }

same_muts : SameTables early_first late_first
unfolding early_first late_first new_state
same_muts = record { names = Perm.rfl; commits = Perm.rfl; muts = Perm.swap late early [] }

-- Two changes of one owner are one.
abbrev Apart : SmMut → SmMut → Type 0
Apart x y = x.owner ≡ y.owner → x ≡ y

of_two :
    {A : Type 0} (P : A → Type 0) (a b : A)
    → ((x : A) → IsProp (P x))
    → P a
    → P b
    → (x : A) → Mem x (a ∷ b ∷ [])
    → P x
of_two P a b prop pa pb =
    (forall_mem-cons prop).1 (pa, (forall_mem-cons prop).1 (pb, λ x m. absurd (not-mem-nil m)))

owners_differ : ¬ (late.owner ≡ early.owner)
unfolding late early
owners_differ e = absurd (omega arith)

early_Fits : MutFits early
unfolding early
early_Fits = record { owner = omega arith; height = omega arith }

late_Fits : MutFits late
unfolding late
late_Fits = record { owner = omega arith; height = omega arith }

-- A state with the two changes and empty tables beside them.
digestible :
    (a b : SmMut)
    → MutFits a
    → MutFits b
    → ¬ (a.owner ≡ b.owner)
    → ¬ (b.owner ≡ a.owner)
    → Digestible (record (new_state 0) { muts = a ∷ b ∷ [] })
unfolding new_state
digestible a b fa fb d d' = record {
  names = tt;
  commits = λ x y m n e f g. absurd (not-mem-nil m);
  muts = λ x y m n.
      of_two (λ z. (w : SmMut) → Mem w (a ∷ b ∷ []) → Apart z w) a b (λ z. hlevel)
        (of_two (Apart a) a b (λ w. hlevel) (λ e. refl) (λ e. absurd (d e)))
        (of_two (Apart b) a b (λ w. hlevel) (λ e. absurd (d' e)) (λ e. refl)) x m y n;
  rows_fit = λ x m. absurd (not-mem-nil m);
  commits_fit = λ x m. absurd (not-mem-nil m);
  muts_fit = of_two MutFits a b (λ w. hlevel le_prop) fa fb;
  few_names = omega arith;
  few_commits = omega arith;
  few_muts = omega arith;
}

early_first-Digestible : Digestible early_first
unfolding early_first
early_first-Digestible =
    digestible early late early_Fits late_Fits (λ e. owners_differ (sym e)) owners_differ

late_first-Digestible : Digestible late_first
unfolding late_first
late_first-Digestible =
    digestible late early late_Fits early_Fits owners_differ (λ e. owners_differ (sym e))

state_bytes-SameTables_example :
    (state_bytes insertion_qsort early_first ≡ state_bytes insertion_qsort late_first)
    ↔ SameTables early_first late_first
state_bytes-SameTables_example =
    state_bytes-SameTables insertion_qsort insertion_qsort early_first late_first
      early_first-Digestible late_first-Digestible

-- The two orders of the table have one digest.
same_digest :
    state_digest insertion_qsort toy_hash early_first
    ≡ state_digest insertion_qsort toy_hash late_first
unfolding state_digest
same_digest = ap toy_hash (
    (state_bytes-SameTables insertion_qsort insertion_qsort early_first late_first
        early_first-Digestible late_first-Digestible).1
      same_muts)
