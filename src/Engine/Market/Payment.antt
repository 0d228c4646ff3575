-- ===== src/Engine/Market/Payment.antt =====
-- The output matching of market.c, `sm_consume_output`, against what a payment is.
use namespace_indexer.Common.{
  ℕ, zero, suc, ◌+◌, ◌≤◌, ◌≡◌, refl, ap, subst, Bool, true, false, ◌⊎◌, inl, inr, List, [], ◌∷◌,
  Option, none, some, ltb, arith, Bool-cases, get_elem?, set, length,
}
use namespace_indexer.Engine.Types.{SmOut}
use namespace_indexer.Engine.Market.{pays, better, best_output, consume_output}

module _ (dest type amount : ℕ) where
  -- Output `j` is `o`, pays exactly the sum to the destination, and is not consumed.
  pub record Payable (outs : List SmOut) (consumed : List Bool) (j : ℕ) (o : SmOut) : Type 0 where
    pub there : get_elem? outs j ≡ some o
    pub free : get_elem? consumed j ≡ some false
    pub exact : pays dest type amount o ≡ true

  module _ (outs : List SmOut) (consumed : List Bool) (i : ℕ) (start : Option (ℕ × ℕ)) where
    -- The best output of a scan from index `i`: the one that it began with, or a payable one; none
    -- that is payable has a lower vout.
    record Best (k v : ℕ) : Type 0 where
      from :
          (start ≡ some (k, v))
          ⊎ ((j : ℕ) × (o : SmOut) × (k ≡ j + i) × (v ≡ o.vout) × Payable outs consumed j o)
      below : (k' v' : ℕ) → start ≡ some (k', v') → v ≤ v'
      lowest : (j : ℕ) (o : SmOut) → Payable outs consumed j o → v ≤ o.vout

    abbrev Scan : Option (ℕ × ℕ) → Type 0
    Scan none = (start ≡ none) × ((j : ℕ) (o : SmOut) → ¬ Payable outs consumed j o)
    Scan (some (k, v)) = Best k v

  module _ (o : SmOut) (os : List SmOut) (c : Bool) (cs : List Bool) where
    later : (j : ℕ) (q : SmOut) → Payable (o ∷ os) (c ∷ cs) (suc j) q → Payable os cs j q
    later j q p = record { there = p.there; free = p.free; exact = p.exact }

    deeper : (j : ℕ) (q : SmOut) → Payable os cs j q → Payable (o ∷ os) (c ∷ cs) (suc j) q
    deeper j q p = record { there = p.there; free = p.free; exact = p.exact }

    -- The head is not payable.
    skip :
        (i : ℕ) (start r : Option (ℕ × ℕ))
        → ((q : SmOut) → ¬ Payable (o ∷ os) (c ∷ cs) 0 q)
        → Scan os cs (suc i) start r
        → Scan (o ∷ os) (c ∷ cs) i start r
    skip i start none bad h = (h.0, each)
      where
        each : (j : ℕ) (q : SmOut) → ¬ Payable (o ∷ os) (c ∷ cs) j q
        each zero q = bad q
        each (suc j) q = λ p. h.1 j q (later j q p)
    skip i start (some (k, v)) bad h = record {
      from = elim h.from [
        | inl e ↦ inl e
        | inr (j, q, e, w, p) ↦ inr (suc j, q, omega arith, w, deeper j q p)
      ];
      below = h.below;
      lowest = low;
    }
      where
        low : (j : ℕ) (q : SmOut) → Payable (o ∷ os) (c ∷ cs) j q → v ≤ q.vout
        low zero q p = absurd (bad q p)
        low (suc j) q p = h.lowest j q (later j q p)

    -- The head is payable, and was taken into account.
    take_head :
        (i : ℕ) (start r : Option (ℕ × ℕ))
        → Payable (o ∷ os) (c ∷ cs) 0 o
        → Scan os cs (suc i) (better i o start) r
        → Scan (o ∷ os) (c ∷ cs) i start r
    unfolding better
    take_head i none none p h = absurd (ground arith)
    take_head i (some (k0, v0)) none p h = absurd (ground arith)
    take_head i none (some (k, v)) p h = record {
      from = elim h.from [
        | inl e ↦ inr (0, o, ground arith, ground arith, p)
        | inr (j, q, e, w, pq) ↦ inr (suc j, q, omega arith, w, deeper j q pq)
      ];
      below = λ k' v' e. absurd (ground arith);
      lowest = low;
    }
      where
        low : (j : ℕ) (q : SmOut) → Payable (o ∷ os) (c ∷ cs) j q → v ≤ q.vout
        low zero q pq =
            let same : o ≡ q = ground (arith, pq.there) in
            subst (λ t. v ≤ t.vout) same (h.below i o.vout refl)
        low (suc j) q pq = h.lowest j q (later j q pq)
    take_head i (some (k0, v0)) (some (k, v)) p h = elim (Bool-cases (ltb o.vout v0)) [
      | inl less ↦ record {
        from = elim h.from [
          | inl e ↦ inr (0, o, ground arith, ground arith, p)
          | inr (j, q, e, w, pq) ↦ inr (suc j, q, omega arith, w, deeper j q pq)
        ];
        below = λ k' v' e. ground (arith, h.below i o.vout);
        lowest = low;
      }
      | inr more ↦ record {
        from = elim h.from [
          | inl e ↦ inl (ground arith)
          | inr (j, q, e, w, pq) ↦ inr (suc j, q, omega arith, w, deeper j q pq)
        ];
        below = λ k' v' e. h.below k' v' (rw more e);
        lowest = low;
      }
    ]
      where
        at_most : v ≤ o.vout
        at_most = ground (arith, h.below i o.vout, h.below k0 v0)

        low : (j : ℕ) (q : SmOut) → Payable (o ∷ os) (c ∷ cs) j q → v ≤ q.vout
        low zero q pq =
            let same : o ≡ q = ground (arith, pq.there) in subst (λ t. v ≤ t.vout) same at_most
        low (suc j) q pq = h.lowest j q (later j q pq)

  ended : (consumed : List Bool) (i : ℕ) (start : Option (ℕ × ℕ)) → Scan [] consumed i start start
  ended consumed i none = (refl, λ j q p. absurd (ground (arith, p.there)))
  ended consumed i (some (k, v)) = record {
    from = inl refl;
    below = λ k' v' e. ground arith;
    lowest = λ j q p. absurd (ground (arith, p.there));
  }

  best_output-Scan :
      (outs : List SmOut) (consumed : List Bool) (i : ℕ) (start : Option (ℕ × ℕ))
      → length outs ≡ length consumed
      → Scan outs consumed i start (best_output dest type amount outs consumed i start)
  unfolding best_output
  best_output-Scan [] consumed i start e = ended consumed i start
  best_output-Scan (o ∷ os) [] i start e = absurd (omega arith)
  best_output-Scan (o ∷ os) (c ∷ cs) i start e = elim (Bool-cases c) [
    | inl used ↦
        skip o os c cs i start _ (λ q p. absurd (ground (arith, p.free)))
          (rw used (best_output-Scan os cs (suc i) start (omega arith)))
    | inr free ↦ elim (Bool-cases (pays dest type amount o)) [
      | inl match ↦
          take_head o os c cs i start _
            (record { there = refl; free = ap some free; exact = match })
            (rw (free, match) (best_output-Scan os cs (suc i) (better i o start) (omega arith)))
      | inr other ↦
          skip o os c cs i start _ (λ q p. absurd (ground (arith, p.there, p.exact)))
            (rw (free, other) (best_output-Scan os cs (suc i) start (omega arith)))
    ]
  ]

  result :
      (outs : List SmOut) (consumed : List Bool) (best : Option (ℕ × ℕ))
      → Scan outs consumed 0 none best
      → best_output dest type amount outs consumed 0 none ≡ best
      → ((consume_output dest type amount outs consumed ≡ none)
          × ((j : ℕ) (o : SmOut) → ¬ Payable outs consumed j o))
        ⊎ ((i : ℕ) × (o : SmOut) × Payable outs consumed i o
            × (consume_output dest type amount outs consumed ≡ some (set consumed i true))
            × ((j : ℕ) (q : SmOut) → Payable outs consumed j q → o.vout ≤ q.vout))
  unfolding consume_output
  result outs consumed none h e = inl (rw (e, consume_output) refl, h.1)
  result outs consumed (some (k, v)) h e = elim h.from [
    | inl f ↦ absurd (ground arith)
    | inr (j, o, same, w, p) ↦ inr (
      j,
      o,
      p,
      rw (e, consume_output)
          (ap (λ t. some (set consumed t true)) (let m : k ≡ j = omega arith in m)),
      λ j' q p'. let low = h.lowest j' q p' in omega arith,
    )
  ]

  -- A payment is matched exactly when some output that is not consumed pays exactly the sum to the
  -- destination; then the match is one with the lowest vout, and its flag alone is set.
  pub consume_output_lem :
      (outs : List SmOut) (consumed : List Bool)
      → length outs ≡ length consumed
      → ((consume_output dest type amount outs consumed ≡ none)
          × ((j : ℕ) (o : SmOut) → ¬ Payable outs consumed j o))
        ⊎ ((i : ℕ) × (o : SmOut) × Payable outs consumed i o
            × (consume_output dest type amount outs consumed ≡ some (set consumed i true))
            × ((j : ℕ) (q : SmOut) → Payable outs consumed j q → o.vout ≤ q.vout))
  unfolding consume_output
  consume_output_lem outs consumed e =
      result outs consumed (best_output dest type amount outs consumed 0 none)
        (best_output-Scan outs consumed 0 none e) refl
