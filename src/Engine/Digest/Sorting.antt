-- ===== src/Engine/Digest/Sorting.antt =====
-- The comparisons of protocol/impls/c/src/digest.c, and lists that they order.
use namespace_indexer.Common.{
  ℕ, ◌≡◌, refl, true, false, List, [], ◌∷◌, ltb, arith, bytes_lt, le_write, Bool-cases, inl, inr,
}
use mathlib.Core.Path.{ap₂}
use mathlib.Core.Bool.{Bool-set}
use mathlib.Core.List.{Mem, Perm, Pairwise, mem-cons_self, mem-cons_of_mem, forall_mem-cons}
use mathlib.Core.List.Pairwise
use mathlib.Core.List.Perm
use namespace_indexer.Engine.Digest.{
  Before, StrictOrder, IsOrdered, then_by, name_before, commit_before, mut_before,
}

bytes_asym : (xs ys : List ℕ) → bytes_lt xs ys ≡ true → bytes_lt ys xs ≡ false
unfolding bytes_lt
bytes_asym [] [] h = refl
bytes_asym [] (y ∷ ys) h = refl
bytes_asym (x ∷ xs) [] h = absurd (ground arith)
bytes_asym (x ∷ xs) (y ∷ ys) h = let rest = bytes_asym xs ys in ground arith

bytes_weak :
    (xs ys zs : List ℕ) → bytes_lt xs ys ≡ false → bytes_lt ys zs ≡ false → bytes_lt xs zs ≡ false
unfolding bytes_lt
bytes_weak [] ys [] h k = refl
bytes_weak (x ∷ xs) ys [] h k = refl
bytes_weak [] [] (z ∷ zs) h k = absurd (ground arith)
bytes_weak [] (y ∷ ys) (z ∷ zs) h k = absurd (ground arith)
bytes_weak (x ∷ xs) [] (z ∷ zs) h k = absurd (ground arith)
bytes_weak (x ∷ xs) (y ∷ ys) (z ∷ zs) h k = let rest = bytes_weak xs ys zs in ground arith

bytes-StrictOrder : StrictOrder bytes_lt
bytes-StrictOrder = record { asym = bytes_asym; weak = bytes_weak }

number-StrictOrder : StrictOrder ltb
number-StrictOrder = record { asym = λ x y h. ground arith; weak = λ x y z h k. ground arith }

module _ {A : Type 0} (a b : Before A) (sa : StrictOrder a) (sb : StrictOrder b) where
  then_asym : (x y : A) → then_by a b x y ≡ true → then_by a b y x ≡ false
  then_asym x y h =
      let f = sa.asym x y in let f' = sa.asym y x in let g = sb.asym x y in grind arith

  then_weak :
      (x y z : A) → then_by a b x y ≡ false → then_by a b y z ≡ false → then_by a b x z ≡ false
  then_weak x y z h k =
      let f = sa.weak x y z in
      let f' = sa.weak z x y in let f'' = sa.weak y z x in let g = sb.weak x y z in grind arith

  then_by-StrictOrder : StrictOrder (then_by a b)
  then_by-StrictOrder = record { asym = then_asym; weak = then_weak }

module _ {A B : Type 0} (f : A → B) (b : Before B) (s : StrictOrder b) where
  pulled-StrictOrder : StrictOrder (λ x y. b (f x) (f y))
  pulled-StrictOrder = record {
    asym = λ x y. s.asym (f x) (f y);
    weak = λ x y z. s.weak (f x) (f y) (f z);
  }

pub name_before-StrictOrder : StrictOrder name_before
unfolding name_before
name_before-StrictOrder = pulled-StrictOrder (λ r. r.name) bytes_lt bytes-StrictOrder

pub commit_before-StrictOrder : StrictOrder commit_before
unfolding commit_before
commit_before-StrictOrder =
    then_by-StrictOrder _ _
      (pulled-StrictOrder (λ c. le_write 32 c.commitment) bytes_lt bytes-StrictOrder)
      (then_by-StrictOrder _ _ (pulled-StrictOrder (λ c. c.commit_height) ltb number-StrictOrder)
        (pulled-StrictOrder (λ c. c.tx_index) ltb number-StrictOrder))

pub mut_before-StrictOrder : StrictOrder mut_before
unfolding mut_before
mut_before-StrictOrder = pulled-StrictOrder (λ m. le_write 20 m.owner) bytes_lt bytes-StrictOrder

module _ {A : Type 0} (before : Before A) (so : StrictOrder before) where
  -- Two elements of which neither is before the other are one.
  abbrev pub Telling : List A → Type 0
  Telling xs = (x y : A) → Mem x xs → Mem y xs → before x y ≡ false → before y x ≡ false → x ≡ y

  irreflexive : (x : A) → before x x ≡ false
  irreflexive x = elim (Bool-cases (before x x)) [ inl e ↦ so.asym x x e | inr e ↦ e ]

  -- The head of an ordered list is before or beside every element of a permutation.
  head_first :
      (a b : A) (l r : List A)
      → IsOrdered before (a ∷ l)
      → Perm (b ∷ r) (a ∷ l)
      → before b a ≡ false
  head_first a b l r (Pairwise.cons h _) p =
      (forall_mem-cons λ x. Bool-set (before x a) false).1 (irreflexive a, h) b
        ((Perm.mem_iff p).0 mem-cons_self)

  pub ordered_unique :
      (l r : List A) → IsOrdered before l → IsOrdered before r → Perm l r → Telling l → l ≡ r
  ordered_unique [] r sl sr p tell = Perm.nil-eq p
  ordered_unique (a ∷ l) [] sl sr p tell = Perm.eq-nil p
  ordered_unique (a ∷ l) (b ∷ r) sl sr p tell =
      let heads : a ≡ b =
        tell a b mem-cons_self ((Perm.mem_iff (Perm.symm p)).0 mem-cons_self)
          (head_first b a r l sr p) (head_first a b l r sl (Perm.symm p)) in
      let tails = Perm.cons_inv (Perm.trans p (Perm.symm (Perm.cons' heads Perm.rfl))) in
      ap₂ ◌∷◌ heads (
        ordered_unique l r (Pairwise.of_cons sl) (Pairwise.of_cons sr) tails
          λ x y m n. tell x y (mem-cons_of_mem _ m) (mem-cons_of_mem _ n))
