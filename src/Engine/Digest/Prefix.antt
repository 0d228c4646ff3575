-- ===== src/Engine/Digest/Prefix.antt =====
-- The bytes of src/digest.c as codes: what is written first can be read off, and the rest is left.
use namespace_indexer.Common.{
  ℕ, ◌^◌, ◌<◌, ◌≡◌, refl, ap, sym, ◌∙◌, List, [], ◌∷◌, ◌++◌, arith, length, le_write, le_read,
  length-le_write, le_read-le_write,
}
use mathlib.Core.Path.{ap₂}
use mathlib.Core.List.{map, Mem, append_assoc, mem-cons_self, mem-cons_of_mem}
use namespace_indexer.Engine.Digest.{put_all}

-- Where the elements fit, equal bytes begin with the codes of related elements, and go on alike.
pub record Prefix {A : Type 0} (P : A → Type 0) (f : A → List ℕ) (R : A → A → Type 0) : Type 0 where
  pub split : (x y : A) → P x → P y → (u v : List ℕ) → f x ++ u ≡ f y ++ v → R x y × (u ≡ v)

split_equal : (xs ys u v : List ℕ) → length xs ≡ length ys → xs ++ u ≡ ys ++ v → (xs ≡ ys) × (u ≡ v)
split_equal [] [] u v l h = (refl, h)
split_equal [] (y ∷ ys) u v l h = absurd (omega arith)
split_equal (x ∷ xs) [] u v l h = absurd (omega arith)
split_equal (x ∷ xs) (y ∷ ys) u v l h =
    let (e, r) = split_equal xs ys u v (omega arith) (ground arith) in
    let first : x ≡ y = ground arith in (ap₂ ◌∷◌ first e, r)

pub split_number :
    (n a b : ℕ) (u v : List ℕ)
    → a < 256 ^ n
    → b < 256 ^ n
    → le_write n a ++ u ≡ le_write n b ++ v
    → (a ≡ b) × (u ≡ v)
split_number n a b u v ha hb h =
    let (e, r) =
      split_equal (le_write n a) (le_write n b) u v
        (length-le_write n a ∙ sym (length-le_write n b)) h in
    (sym (le_read-le_write n a ha) ∙ ap le_read e ∙ le_read-le_write n b hb, r)

module _ {A : Type 0} {P : A → Type 0} where
  pub number-Prefix :
      (n : ℕ) (g : A → ℕ)
      → ((x : A) → P x → g x < 256 ^ n)
      → Prefix P (λ x. le_write n (g x)) (λ x y. g x ≡ g y)
  number-Prefix n g fits = record {
    split = λ x y px py u v. split_number n (g x) (g y) u v (fits x px) (fits y py);
  }

  -- A text behind its length.
  pub text-Prefix :
      (g : A → List ℕ)
      → ((x : A) → P x → length (g x) < 256)
      → Prefix P (λ x. le_write 1 (length (g x)) ++ g x) (λ x y. g x ≡ g y)
  text-Prefix g fits = record {
    split = λ x y px py u v h.
        let (l, r) =
          split_number 1 (length (g x)) (length (g y)) (g x ++ u) (g y ++ v) (fits x px) (fits y py)
            (sym (append_assoc (le_write 1 (length (g x))) (g x) u)
              ∙ h
              ∙ append_assoc (le_write 1 (length (g y))) (g y) v) in
        split_equal (g x) (g y) u v l r;
  }

  pub append-Prefix :
      {f g : A → List ℕ} {R S : A → A → Type 0}
      → Prefix P f R
      → Prefix P g S
      → Prefix P (λ x. f x ++ g x) (λ x y. R x y × S x y)
  append-Prefix {f} {g} {R} {S} pf pg = record {
    split = λ x y px py u v h.
        let (r, e) =
          pf.split x y px py (g x ++ u) (g y ++ v)
            (sym (append_assoc (f x) (g x) u) ∙ h ∙ append_assoc (f y) (g y) v) in
        let (s, e') = pg.split x y px py u v e in ((r, s), e');
  }

  pub imp-Prefix :
      {f : A → List ℕ} {R S : A → A → Type 0}
      → ((x y : A) → R x y → S x y)
      → Prefix P f R
      → Prefix P f S
  imp-Prefix {f} {R} {S} k pf = record {
    split = λ x y px py u v h. let (r, e) = pf.split x y px py u v h in (k x y r, e);
  }

  -- As many elements as were counted are read off one after another.
  pub put_all-Prefix :
      (f : A → List ℕ) (g : A → A) (xs ys : List A) (u v : List ℕ)
      → Prefix P f (λ x y. g x ≡ g y)
      → ((x : A) → Mem x xs → P x)
      → ((y : A) → Mem y ys → P y)
      → length xs ≡ length ys
      → put_all f xs ++ u ≡ put_all f ys ++ v
      → (map g xs ≡ map g ys) × (u ≡ v)
  unfolding put_all
  put_all-Prefix f g [] [] u v pf fx fy l h = (refl, h)
  put_all-Prefix f g [] (y ∷ ys) u v pf fx fy l h = absurd (omega arith)
  put_all-Prefix f g (x ∷ xs) [] u v pf fx fy l h = absurd (omega arith)
  put_all-Prefix f g (x ∷ xs) (y ∷ ys) u v pf fx fy l h =
      let (e, r) =
        pf.split x y (fx x mem-cons_self) (fy y mem-cons_self) (put_all f xs ++ u)
          (put_all f ys ++ v)
          (sym (append_assoc (f x) (put_all f xs) u) ∙ h ∙ append_assoc (f y) (put_all f ys) v) in
      let (es, r') =
        put_all-Prefix f g xs ys u v pf (λ z m. fx z (mem-cons_of_mem _ m))
          (λ z m. fy z (mem-cons_of_mem _ m)) (omega arith) r in
      (ap₂ ◌∷◌ e es, r')
