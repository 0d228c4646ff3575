-- ===== src/Chain/Merkle/Mutation.antt =====
-- The loop and the duplicate leaves of merkle_root, src/chain.c.
use namespace_indexer.Common.{
  ℕ, zero, suc, ◌*◌, ◌≤◌, ◌≡◌, refl, ap, Bool, true, false, ◌||◌, List, [], ◌∷◌, ◌++◌, some, length,
  arith, length-append, subst,
}
use namespace_indexer.Chain.Merkle.{duplicate_pair, node, merkle_level, merkle_loop, merkle_root}

module _ (sha256 : List ℕ → ℕ) where
  -- A level has half the hashes, rounded up.
  length-merkle_level :
      (xs : List ℕ)
      → (length xs ≤ 2 * length (merkle_level sha256 xs))
        × (2 * length (merkle_level sha256 xs) ≤ suc (length xs))
  unfolding merkle_level
  length-merkle_level [] = (omega arith, omega arith)
  length-merkle_level (a ∷ []) = (omega arith, omega arith)
  length-merkle_level (a ∷ b ∷ rest) =
      let (low, high) = length-merkle_level rest in (omega arith, omega arith)

  -- A root and a flag that the loop gives on any fuel that is enough.
  Ends : List ℕ → ℕ × Bool → Type 0
  Ends xs r =
      (g : ℕ) (m : Bool) → length xs ≤ suc g → merkle_loop sha256 g xs m ≡ some (r.0, m || r.1)

  single-Ends : (a : ℕ) → Ends (a ∷ []) (a, false)
  unfolding Ends merkle_loop
  single-Ends a zero true h = refl
  single-Ends a zero false h = refl
  single-Ends a (suc g) true h = refl
  single-Ends a (suc g) false h = refl

  level-Ends :
      (a b : ℕ) (rest : List ℕ) (r : ℕ × Bool)
      → Ends (merkle_level sha256 (a ∷ b ∷ rest)) r
      → Ends (a ∷ b ∷ rest) (r.0, duplicate_pair (a ∷ b ∷ rest) || r.1)
  unfolding Ends merkle_loop
  level-Ends a b rest r h zero m k = absurd (omega arith)
  level-Ends a b rest r h (suc g) true k =
      h g true (let (low, high) = length-merkle_level (a ∷ b ∷ rest) in omega arith)
  level-Ends a b rest r h (suc g) false k =
      h g (duplicate_pair (a ∷ b ∷ rest))
        (let (low, high) = length-merkle_level (a ∷ b ∷ rest) in omega arith)

  ends : (f : ℕ) (xs : List ℕ) → 1 ≤ length xs → length xs ≤ suc f → (r : ℕ × Bool) × Ends xs r
  ends f [] h k = absurd (omega arith)
  ends f (a ∷ []) h k = ((a, false), single-Ends a)
  ends zero (a ∷ b ∷ rest) h k = absurd (omega arith)
  ends (suc f) (a ∷ b ∷ rest) h k =
      let (low, high) = length-merkle_level (a ∷ b ∷ rest) in
      let (r, e) = ends f (merkle_level sha256 (a ∷ b ∷ rest)) (omega arith) (omega arith) in
      ((r.0, duplicate_pair (a ∷ b ∷ rest) || r.1), level-Ends a b rest r e)

  root_of : (ids : List ℕ) (r : ℕ × Bool) → Ends ids r → merkle_root sha256 ids ≡ some r
  unfolding merkle_root Ends
  root_of ids r e = e (length ids) false (omega arith)

  -- The loop over one hash at least ends with one hash, on the fuel that merkle_root gives it.
  pub merkle_root-ends :
      (ids : List ℕ) → 1 ≤ length ids → (r : ℕ × Bool) × (merkle_root sha256 ids ≡ some r)
  merkle_root-ends ids h =
      let (r, e) = ends (length ids) ids h (omega arith) in (r, root_of ids r e)

  -- Doubling the last of an odd number of hashes leaves the next level as it is.
  merkle_level-double :
      (xs : List ℕ) (n x : ℕ)
      → length xs ≡ 2 * n
      → merkle_level sha256 (xs ++ x ∷ []) ≡ merkle_level sha256 (xs ++ x ∷ x ∷ [])
  unfolding merkle_level
  merkle_level-double [] n x h = refl
  merkle_level-double (a ∷ []) n x h = absurd (omega arith)
  merkle_level-double (a ∷ b ∷ rest) zero x h = absurd (omega arith)
  merkle_level-double (a ∷ b ∷ rest) (suc n) x h =
      ap (λ t. node sha256 a b ∷ t) (merkle_level-double rest n x (omega arith))

  duplicate_pair-double :
      (xs : List ℕ) (n x : ℕ) → length xs ≡ 2 * n → duplicate_pair (xs ++ x ∷ x ∷ []) ≡ true
  unfolding duplicate_pair
  duplicate_pair-double [] n x h = ground arith
  duplicate_pair-double (a ∷ []) n x h = absurd (omega arith)
  duplicate_pair-double (a ∷ b ∷ rest) zero x h = absurd (omega arith)
  duplicate_pair-double (a ∷ b ∷ rest) (suc n) x h =
      let e = duplicate_pair-double rest n x (omega arith) in ground arith

  -- Behind a positive even number of hashes, one more hash given twice has the root it has when
  -- given once, and the list with the copy is flagged.
  pub merkle_root-double :
      (xs : List ℕ) (n x : ℕ)
      → length xs ≡ 2 * suc n
      → (r : ℕ × Bool) × (merkle_root sha256 (xs ++ x ∷ []) ≡ some r)
        × (merkle_root sha256 (xs ++ x ∷ x ∷ []) ≡ some (r.0, true))
  merkle_root-double [] n x h = absurd (omega arith)
  merkle_root-double (a ∷ []) n x h = absurd (omega arith)
  merkle_root-double (a ∷ b ∷ rest) n x h =
      let once = a ∷ b ∷ (rest ++ x ∷ []) in
      let twice = a ∷ b ∷ (rest ++ x ∷ x ∷ []) in
      let size = length-append rest (x ∷ []) in
      let (low, high) = length-merkle_level once in
      let (r, e) = ends (length once) (merkle_level sha256 once) (omega arith) (omega arith) in
      let same = merkle_level-double (a ∷ b ∷ rest) (suc n) x h in
      let marked = duplicate_pair-double (a ∷ b ∷ rest) (suc n) x h in
      (
        (r.0, duplicate_pair once || r.1),
        root_of once _ (level-Ends a b (rest ++ x ∷ []) r e),
        subst (λ d. merkle_root sha256 twice ≡ some (r.0, d || r.1)) marked
            (root_of twice _
              (level-Ends a b (rest ++ x ∷ x ∷ []) r (subst (λ l. Ends l r) same e))),
      )
