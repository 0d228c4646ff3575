-- ===== src/Relay/Chains.antt =====
-- Chained hash tables, as src/mempool.c walks them.
use namespace_indexer.Common.{
  ℕ, ◌≡◌, refl, ap, sym, ◌∙◌, Bool, true, false, List, [], ◌∷◌, Option, none, some, ◌==◌,
  if◌then◌else◌, Bool-cases, inl, inr, arith,
}

abbrev pub Table : Type 0 → Type 0
Table A = ℕ → List A

abbrev pub put_chain : {A : Type 0} → ℕ → List A → Table A → Table A
put_chain b chain t k = if k == b then chain else t k

-- The first element of a chain that passes the test, and the chain without it.
unfoldable pub find_first : {A : Type 0} → (A → Bool) → List A → Option A
find_first f [] = none
find_first f (x ∷ xs) = let rest = find_first f xs in if f x then some x else rest

unfoldable pub unlink_first : {A : Type 0} → (A → Bool) → List A → List A
unlink_first f [] = []
unlink_first f (x ∷ xs) = let rest = unlink_first f xs in if f x then xs else x ∷ rest

module _ {A : Type 0} where
  pub find_first-unlink_other :
      (f g : A → Bool) (xs : List A)
      → ((x : A) → f x ≡ true → g x ≡ false)
      → find_first g (unlink_first f xs) ≡ find_first g xs
  unfolding find_first unlink_first
  find_first-unlink_other f g [] h = refl
  find_first-unlink_other f g (x ∷ xs) h = elim (Bool-cases (f x)) [
    | inl e ↦ rw (e, h x e) refl
    | inr e ↦ rw e (ap (λ r. if g x then some x else r) (find_first-unlink_other f g xs h))
  ]

  pub find_first-unlink_none :
      (f g : A → Bool) (xs : List A)
      → find_first g xs ≡ none
      → find_first g (unlink_first f xs) ≡ none
  unfolding find_first unlink_first
  find_first-unlink_none f g [] h = refl
  find_first-unlink_none f g (x ∷ xs) h = elim (Bool-cases (g x)) [
    | inl e ↦ let k : find_first g (x ∷ xs) ≡ some x = rw e refl in absurd (ground arith)
    | inr e ↦
        let rest : find_first g xs ≡ none =
          (let k : find_first g (x ∷ xs) ≡ find_first g xs = rw e refl in sym k ∙ h) in
        elim (Bool-cases (f x)) [
          | inl e' ↦ rw e' rest
          | inr e' ↦ rw (e', e) (find_first-unlink_none f g xs rest)
        ]
  ]

  -- What is found passes the test.
  pub find_first-hit : (f : A → Bool) (xs : List A) (a : A) → find_first f xs ≡ some a → f a ≡ true
  unfolding find_first
  find_first-hit f [] a h = absurd (ground arith)
  find_first-hit f (x ∷ xs) a h = elim (Bool-cases (f x)) [
    | inl e ↦
        let k : find_first f (x ∷ xs) ≡ some x = rw e refl in
        let same : x ≡ a = ground arith in ap f (sym same) ∙ e
    | inr e ↦
        let k : find_first f (x ∷ xs) ≡ find_first f xs = rw e refl in
        find_first-hit f xs a (sym k ∙ h)
  ]

-- No two elements of a chain have one key.
module _ {A K : Type 0} (hits : K → A → Bool) where
  abbrev pub Distinct : List A → Type 0
  Distinct [] = Unit {0}
  Distinct (x ∷ xs) = ((k : K) → hits k x ≡ true → find_first (hits k) xs ≡ none) × Distinct xs

  pub Distinct-unlink_first :
      (f : A → Bool) (xs : List A) → Distinct xs → Distinct (unlink_first f xs)
  unfolding unlink_first
  Distinct-unlink_first f [] d = tt
  Distinct-unlink_first f (x ∷ xs) d = elim (Bool-cases (f x)) [
    | inl e ↦ rw e d.1
    | inr e ↦
        rw e
          ((λ k h. find_first-unlink_none f (hits k) xs (d.0 k h)), Distinct-unlink_first f xs d.1)
  ]

  pub find_first-unlink_self :
      (f : A → Bool) (k : K) (a : A) (xs : List A)
      → Distinct xs
      → find_first (hits k) xs ≡ some a
      → f a ≡ true
      → ((x : A) → f x ≡ true → hits k x ≡ true)
      → find_first (hits k) (unlink_first f xs) ≡ none
  unfolding find_first unlink_first
  find_first-unlink_self f k a [] d h fa only = absurd (ground arith)
  find_first-unlink_self f k a (x ∷ xs) d h fa only = elim (Bool-cases (hits k x)) [
    | inl e ↦
        let first : find_first (hits k) (x ∷ xs) ≡ some x = rw e refl in
        let same : x ≡ a = ground arith in
        let gone : f x ≡ true = ap f same ∙ fa in rw gone (d.0 k e)
    | inr e ↦
        let later : find_first (hits k) (x ∷ xs) ≡ find_first (hits k) xs = rw e refl in
        let kept : f x ≡ false = elim (Bool-cases (f x)) [
          | inl e' ↦ let t = only x e' in absurd (ground arith)
          | inr e' ↦ e'
        ] in
        rw (kept, e) (find_first-unlink_self f k a xs d.1 (sym later ∙ h) fa only)
  ]
