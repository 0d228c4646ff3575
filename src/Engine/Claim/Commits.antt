-- ===== src/Engine/Claim/Commits.antt =====
-- The scan for the earliest commit that opens a claim: op_claim of protocol/impls/c/src/claim.c.
use namespace_indexer.Common.{
  ℕ, zero, suc, ◌≤◌, ◌<◌, ◌≡◌, refl, ap, ◌∙◌, sym, subst, ◌⊎◌, inl, inr, List, [], ◌∷◌, Option,
  none, some, ltb, ◌&&◌, ◌==◌, if◌then◌else◌, arith, Bool-cases, get_elem?, OnSome, OnSome-result,
  OnSome-imp,
}
use namespace_indexer.Engine.Types.{SmCommit}
use namespace_indexer.Engine.Claim.{earlier, earliest_commit}

-- The order of commits: by height, then by the index of the transaction.
abbrev pub NotAfter : ℕ × ℕ → ℕ × ℕ → Type 0
NotAfter p q = (p.0 < q.0) ⊎ ((p.0 ≡ q.0) × (p.1 ≤ q.1))

abbrev pub Before : ℕ × ℕ → ℕ × ℕ → Type 0
Before p q = (p.0 < q.0) ⊎ ((p.0 ≡ q.0) × (p.1 < q.1))

abbrev pub place : SmCommit → ℕ × ℕ
place c = (c.commit_height, c.tx_index)

module _ (height want : ℕ) where
  -- Commit `i` opens the claim and lies in an earlier block.
  pub record Opens (cs : List SmCommit) (i : ℕ) (c : SmCommit) : Type 0 where
    pub there : get_elem? cs i ≡ some c
    pub matches : c.commitment ≡ want
    pub matured : c.commit_height < height

  -- The outcome of a scan that began with `best`.
  pub record Scanned (best : Option (ℕ × ℕ)) (cs : List SmCommit) (p : ℕ × ℕ) : Type 0 where
    pub from : (best ≡ some p) ⊎ ((i : ℕ) × (c : SmCommit) × Opens cs i c × (p ≡ place c))
    pub below : (q : ℕ × ℕ) → best ≡ some q → NotAfter p q
    pub first : (i : ℕ) (c : SmCommit) → Opens cs i c → NotAfter p (place c)

  NotAfter-trans : (p q r : ℕ × ℕ) → NotAfter p q → NotAfter q r → NotAfter p r
  NotAfter-trans p q r (inl a) (inl b) = inl (omega arith)
  NotAfter-trans p q r (inl a) (inr b) = inl (omega (arith, b.0))
  NotAfter-trans p q r (inr a) (inl b) = inl (omega (arith, a.0))
  NotAfter-trans p q r (inr a) (inr b) = inr (omega (arith, a.0, b.0), omega (arith, a.1, b.1))

  earlier-cases :
      (c : SmCommit) (best : Option (ℕ × ℕ))
      → (q : ℕ × ℕ) × (earlier c best ≡ some q)
        × NotAfter q (place c)
        × OnSome (NotAfter q) best
        × ((best ≡ some q) ⊎ (q ≡ place c))
  unfolding earlier
  earlier-cases c none = (place c, refl, inr (refl, omega arith), tt, inr refl)
  earlier-cases c (some (h, t)) = elim (Bool-cases (ltb c.commit_height h)) [
    | inl lower ↦ (place c, rw lower refl, inr (refl, omega arith), inl (ground arith), inr refl)
    | inr not_lower ↦ elim (Bool-cases (c.commit_height == h)) [
      | inl level ↦ elim (Bool-cases (ltb c.tx_index t)) [
        | inl less ↦ (
          place c,
          rw (not_lower, level, less) refl,
          inr (refl, omega arith),
          inr (ground arith, ground arith),
          inr refl,
        )
        | inr more ↦ (
          (h, t),
          rw (not_lower, level, more) refl,
          inr (ground arith, ground arith),
          inr (refl, omega arith),
          inl refl,
        )
      ]
      | inr apart ↦ (
        (h, t),
        rw (not_lower, apart) refl,
        inl (ground arith),
        inr (refl, omega arith),
        inl refl,
      )
    ]
  ]

  later :
      (c : SmCommit) (cs : List SmCommit) (i : ℕ) (d : SmCommit)
      → Opens (c ∷ cs) (suc i) d
      → Opens cs i d
  later c cs i d o = record { there = o.there; matches = o.matches; matured = o.matured }

  deeper :
      (c : SmCommit) (cs : List SmCommit) (i : ℕ) (d : SmCommit)
      → Opens cs i d
      → Opens (c ∷ cs) (suc i) d
  deeper c cs i d o = record { there = o.there; matches = o.matches; matured = o.matured }

  head-Opens :
      (c d : SmCommit) (cs : List SmCommit)
      → Opens (c ∷ cs) 0 d
      → (c ≡ d) × (c.commitment ≡ want) × (c.commit_height < height)
  head-Opens c d cs o =
      let same : c ≡ d = ground (arith, o.there) in
      (
        same,
        ap (λ x. x.commitment) same ∙ o.matches,
        subst (λ x. x.commit_height < height) (sym same) o.matured,
      )

  skip_commit :
      (c : SmCommit) (cs : List SmCommit) (best : Option (ℕ × ℕ))
      → ((d : SmCommit) → ¬ Opens (c ∷ cs) 0 d)
      → (p : ℕ × ℕ) → Scanned best cs p
      → Scanned best (c ∷ cs) p
  skip_commit c cs best bad p h = record {
    from = elim h.from [ inl e ↦ inl e | inr (i, d, o, e) ↦ inr (suc i, d, deeper c cs i d o, e) ];
    below = h.below;
    first = each;
  }
    where
      each : (i : ℕ) (d : SmCommit) → Opens (c ∷ cs) i d → NotAfter p (place d)
      each zero d o = absurd (bad d o)
      each (suc i) d o = h.first i d (later c cs i d o)

  take_commit :
      (c : SmCommit) (cs : List SmCommit) (best : Option (ℕ × ℕ))
      → Opens (c ∷ cs) 0 c
      → (p : ℕ × ℕ) → Scanned (earlier c best) cs p
      → Scanned best (c ∷ cs) p
  take_commit c cs best opens p h =
      let (q, e, q_place, q_best, q_from) = earlier-cases c best in
      let p_q : NotAfter p q = h.below q e in
      let p_place : NotAfter p (place c) = NotAfter-trans p q (place c) p_q q_place in
      record {
        from = elim h.from [
          | inl f ↦
              let same : q ≡ p = ground (arith, e, f) in
              elim q_from [
                | inl b ↦ inl (b ∙ ap some same)
                | inr b ↦ inr (0, c, opens, sym same ∙ b)
              ]
          | inr (i, d, o, f) ↦ inr (suc i, d, deeper c cs i d o, f)
        ];
        below = λ r b. NotAfter-trans p q r p_q (OnSome-result (NotAfter q) best r q_best b);
        first = λ i d. each p_place i d;
      }
    where
      each :
          NotAfter p (place c) → (i : ℕ) (d : SmCommit) → Opens (c ∷ cs) i d → NotAfter p (place d)
      each n zero d o = subst (λ x. NotAfter p (place x)) (head-Opens c d cs o).0 n
      each n (suc i) d o = h.first i d (later c cs i d o)

  scan_step :
      (c : SmCommit) (cs : List SmCommit) (best : Option (ℕ × ℕ))
      → OnSome (Scanned best cs) (earliest_commit height want cs best)
      → OnSome (Scanned (earlier c best) cs) (earliest_commit height want cs (earlier c best))
      → OnSome (Scanned best (c ∷ cs)) (
          earliest_commit height want cs
            (if ltb c.commit_height height && c.commitment == want then earlier c best else best))
  scan_step c cs best rest next = elim (Bool-cases (ltb c.commit_height height)) [
    | inr young ↦ rw young (
        OnSome-imp (Scanned best cs) (Scanned best (c ∷ cs))
          (skip_commit c cs best (λ d o. let (_, _, h) = head-Opens c d cs o in ground arith)) _
          rest)
    | inl old ↦ elim (Bool-cases (c.commitment == want)) [
      | inr other ↦
          rw (old, other)
            (OnSome-imp (Scanned best cs) (Scanned best (c ∷ cs))
              (skip_commit c cs best (λ d o. let (_, h, _) = head-Opens c d cs o in ground arith)) _
              rest)
      | inl match ↦
          rw (old, match)
            (OnSome-imp (Scanned (earlier c best) cs) (Scanned best (c ∷ cs))
              (take_commit c cs best
                (record { there = refl; matches = ground arith; matured = ground arith }))
              _ next)
    ]
  ]

  pub earliest_commit-Scanned :
      (cs : List SmCommit) (best : Option (ℕ × ℕ))
      → OnSome (Scanned best cs) (earliest_commit height want cs best)
  unfolding earliest_commit
  earliest_commit-Scanned [] none = tt
  earliest_commit-Scanned [] (some p) =
      let level : NotAfter p p = inr (refl, omega arith) in
      record {
        from = inl refl;
        below = λ q e. let same : p ≡ q = ground arith in subst (NotAfter p) same level;
        first = λ i c o. absurd (ground (arith, o.there));
      }
  earliest_commit-Scanned (c ∷ cs) best =
      scan_step c cs best (earliest_commit-Scanned cs best)
        (earliest_commit-Scanned cs (earlier c best))
