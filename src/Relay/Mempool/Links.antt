-- ===== src/Relay/Mempool/Links.antt =====
-- The tables of src/mempool.c under linking and unlinking.
use namespace_indexer.Common.{
  ℕ, ◌≡◌, ◌≢◌, refl, ap, sym, subst, ◌∙◌, Bool, true, false, ◌&&◌, ◌||◌, List, [], ◌∷◌, none, some,
  ◌==◌, arith, All, All-imp, bytes_eq, bytes_eq_iff, bytes_eq_refl, Bool-cases, Option-cases, inl,
  inr, OnSome, OnSome-result,
}
use namespace_indexer.Relay.Chains.{
  Table, put_chain, find_first, unlink_first, find_first-unlink_other, find_first-unlink_none,
  Distinct, Distinct-unlink_first, find_first-unlink_self, find_first-hit,
}
use namespace_indexer.Relay.Mempool.{
  MpEntry, MpPrev, pv_h, has_txid, spends, owner_link, unlink_prevs, link_prevs,
}

-- Is the output among those spent?
abbrev pub contains : List ℕ → List (List ℕ) → Bool
contains v [] = false
contains v (w ∷ ws) = bytes_eq v w || contains v ws

abbrev pub NoRepeat : List (List ℕ) → Type 0
NoRepeat [] = Unit {0}
NoRepeat (v ∷ vs) = (contains v vs ≡ false) × NoRepeat vs

-- Each chain of the table has one element for a key.
abbrev pub DistinctLinks : Table MpPrev → Type 0
DistinctLinks t = (b : ℕ) → Distinct spends (t b)

pub put_here : {A : Type 0} (b : ℕ) (c : List A) (t : Table A) → put_chain b c t b ≡ c
put_here b c t = rw (let e : (b == b) ≡ true = ground arith in e) refl

put_there :
    {A : Type 0} (b k : ℕ) (c : List A) (t : Table A) → (k == b) ≡ false → put_chain b c t k ≡ t k
put_there b k c t e = rw e refl

pub put_chain-Distinct :
    {A K : Type 0} (hits : K → A → Bool) (b : ℕ) (c : List A) (t : Table A)
    → ((k : ℕ) → Distinct hits (t k))
    → Distinct hits c
    → (k : ℕ) → Distinct hits (put_chain b c t k)
put_chain-Distinct hits b c t d dc k = elim (Bool-cases (k == b)) [
  | inl e ↦ rw e dc
  | inr e ↦ rw e (d k)
]

-- A lookup after a chain has changed to one in which the lookup gives the same.
pub find_put :
    {A : Type 0} (f : A → Bool) (b k : ℕ) (c : List A) (t : Table A)
    → (k ≡ b → find_first f c ≡ find_first f (t k))
    → find_first f (put_chain b c t k) ≡ find_first f (t k)
find_put f b k c t h = elim (Bool-cases (k == b)) [
  | inl e ↦ rw e (h (ground arith))
  | inr e ↦ rw e refl
]

spends_one : (v w : List ℕ) (l : MpPrev) → spends v l ≡ true → spends w l ≡ true → v ≡ w
spends_one v w l h k = sym ((bytes_eq_iff l.prevout v).0 h) ∙ (bytes_eq_iff l.prevout w).0 k

spends_other : (v w : List ℕ) (l : MpPrev) → v ≢ w → spends v l ≡ true → spends w l ≡ false
spends_other v w l d h = elim (Bool-cases (spends w l)) [
  | inl e ↦ absurd (d (spends_one v w l h e))
  | inr e ↦ e
]

-- One link taken out, and one put in.
abbrev unlink_one : ℕ → List ℕ → Table MpPrev → Table MpPrev
unlink_one txid v t =
    put_chain (pv_h v) (unlink_first (λ l. has_txid txid l.entry && spends v l) (t (pv_h v))) t

module _ (txid : ℕ) (v : List ℕ) (t : Table MpPrev) where
  unlink_other : (w : List ℕ) → v ≢ w → owner_link w (unlink_one txid v t) ≡ owner_link w t
  unfolding owner_link
  unlink_other w d = find_put (spends w) (pv_h v) (pv_h w) _ t λ e.
      find_first-unlink_other (λ l. has_txid txid l.entry && spends v l) (spends w) (t (pv_h v))
        (λ l h. spends_other v w l d (ground arith))
      ∙ ap (λ b. find_first (spends w) (t b)) (sym e)

  unlink_self :
      DistinctLinks t
      → OnSome (λ l. l.entry.txid ≡ txid) (owner_link v t)
      → owner_link v (unlink_one txid v t) ≡ none
  unfolding owner_link
  unlink_self d h = put_first ∙ (elim (Option-cases (owner_link v t)) [
    | inl e ↦ find_first-unlink_none mine (spends v) (t (pv_h v)) e
    | inr (l, e) ↦
        let named : l.entry.txid ≡ txid =
          OnSome-result (λ l. l.entry.txid ≡ txid) (owner_link v t) l h e in
        let spent : spends v l ≡ true = find_first-hit (spends v) (t (pv_h v)) l e in
        find_first-unlink_self spends mine v l (t (pv_h v)) (d (pv_h v)) e (ground arith)
          (λ x g. ground arith)
  ])
    where
      mine : MpPrev → Bool
      mine l = has_txid txid l.entry && spends v l

      put_first :
          find_first (spends v) (
            put_chain
              (pv_h v)
              (unlink_first (λ l. has_txid txid l.entry && spends v l) (t (pv_h v)))
              t
              (pv_h v))
          ≡ find_first
              (spends v)
              (unlink_first (λ l. has_txid txid l.entry && spends v l) (t (pv_h v)))
      put_first = ap (find_first (spends v)) (put_here (pv_h v) _ t)

  unlink_Distinct : DistinctLinks t → DistinctLinks (unlink_one txid v t)
  unlink_Distinct d = put_chain-Distinct spends (pv_h v) _ t d (
      Distinct-unlink_first spends (λ l. has_txid txid l.entry && spends v l) (t (pv_h v))
        (d (pv_h v)))

-- The outputs of a list taken out one by one.
module _ (txid : ℕ) where
  -- Nothing, or a link of the transaction.
  abbrev pub LinkOf : List ℕ → Table MpPrev → Type 0
  LinkOf v t = OnSome (λ l. l.entry.txid ≡ txid) (owner_link v t)

  LinkOf-unlink_one :
      (v w : List ℕ) (t : Table MpPrev)
      → DistinctLinks t
      → LinkOf v t
      → LinkOf w t
      → LinkOf w (unlink_one txid v t)
  LinkOf-unlink_one v w t d hv hw = elim (Bool-cases (bytes_eq v w)) [
    | inl e ↦
        let same = (bytes_eq_iff v w).0 e in
        subst (λ u. LinkOf u (unlink_one txid v t)) same
          (subst (OnSome (λ l. l.entry.txid ≡ txid)) (sym (unlink_self txid v t d hv)) tt)
    | inr e ↦ subst (OnSome (λ l. l.entry.txid ≡ txid)) (sym (unlink_other txid v t w (apart e))) hw
  ]
    where
      apart : bytes_eq v w ≡ false → v ≢ w
      apart e same = let k = (bytes_eq_iff v w).1 same in absurd (ground arith)

  pub unlink_prevs-Distinct :
      (vs : List (List ℕ)) (t : Table MpPrev)
      → DistinctLinks t
      → DistinctLinks (unlink_prevs txid vs t)
  unfolding unlink_prevs
  unlink_prevs-Distinct [] t d = d
  unlink_prevs-Distinct (v ∷ vs) t d =
      unlink_prevs-Distinct vs (unlink_one txid v t) (unlink_Distinct txid v t d)

  pub unlink_prevs_other :
      (vs : List (List ℕ)) (w : List ℕ) (t : Table MpPrev)
      → contains w vs ≡ false
      → owner_link w (unlink_prevs txid vs t) ≡ owner_link w t
  unfolding unlink_prevs
  unlink_prevs_other [] w t h = refl
  unlink_prevs_other (v ∷ vs) w t h =
      unlink_prevs_other vs w (unlink_one txid v t) (ground arith)
      ∙ unlink_other txid v t w
          (λ same. let k = (bytes_eq_iff w v).1 (sym same) in absurd (ground arith))

  pub unlink_prevs_gone :
      (vs : List (List ℕ)) (w : List ℕ) (t : Table MpPrev)
      → DistinctLinks t
      → All (λ v. LinkOf v t) vs
      → contains w vs ≡ true
      → owner_link w (unlink_prevs txid vs t) ≡ none
  unfolding unlink_prevs
  unlink_prevs_gone [] w t d a h = absurd (ground arith)
  unlink_prevs_gone (v ∷ vs) w t d a h = elim (Bool-cases (contains w vs)) [
    | inl later ↦
        unlink_prevs_gone vs w (unlink_one txid v t) (unlink_Distinct txid v t d)
          (All-imp _ _ (λ u o. LinkOf-unlink_one v u t d a.0 o) vs a.1) later
    | inr last ↦
        let same : w ≡ v = (bytes_eq_iff w v).0 (ground arith) in
        unlink_prevs_other vs w (unlink_one txid v t) last
        ∙ ap (λ u. owner_link u (unlink_one txid v t)) same
        ∙ unlink_self txid v t d a.0
  ]

-- Outputs that no link has, linked to an entry.
module _ (e : MpEntry) where
  abbrev link_one : List ℕ → Table MpPrev → Table MpPrev
  link_one v t = put_chain (pv_h v) (record { prevout = v; entry = e } ∷ t (pv_h v)) t

  link_self :
      (v : List ℕ) (t : Table MpPrev)
      → owner_link v (link_one v t) ≡ some (record { prevout = v; entry = e })
  unfolding owner_link find_first
  link_self v t = ap (find_first (spends v)) (put_here (pv_h v) _ t) ∙ rw (bytes_eq_refl v) refl

  link_other :
      (v w : List ℕ) (t : Table MpPrev) → v ≢ w → owner_link w (link_one v t) ≡ owner_link w t
  unfolding owner_link find_first
  link_other v w t d = find_put (spends w) (pv_h v) (pv_h w) _ t λ e.
      let miss : bytes_eq v w ≡ false = elim (Bool-cases (bytes_eq v w)) [
        | inl k ↦ absurd (d ((bytes_eq_iff v w).0 k))
        | inr k ↦ k
      ] in
      rw miss (ap (λ b. find_first (spends w) (t b)) (sym e))

  link_Distinct :
      (v : List ℕ) (t : Table MpPrev)
      → owner_link v t ≡ none
      → DistinctLinks t
      → DistinctLinks (link_one v t)
  unfolding owner_link
  link_Distinct v t h d = put_chain-Distinct spends (pv_h v) _ t d (
    (λ k hit. subst (λ u. find_first (spends u) (t (pv_h v)) ≡ none) ((bytes_eq_iff v k).0 hit) h),
    d (pv_h v),
  )

  pub link_prevs_other :
      (vs : List (List ℕ)) (w : List ℕ) (t : Table MpPrev)
      → contains w vs ≡ false
      → owner_link w (link_prevs e vs t) ≡ owner_link w t
  unfolding link_prevs
  link_prevs_other [] w t h = refl
  link_prevs_other (v ∷ vs) w t h =
      link_prevs_other vs w (link_one v t) (ground arith)
      ∙ link_other v w t (λ same. let k = (bytes_eq_iff w v).1 (sym same) in absurd (ground arith))

  pub link_prevs_hit :
      (vs : List (List ℕ)) (w : List ℕ) (t : Table MpPrev)
      → contains w vs ≡ true
      → owner_link w (link_prevs e vs t) ≡ some (record { prevout = w; entry = e })
  unfolding link_prevs
  link_prevs_hit [] w t h = absurd (ground arith)
  link_prevs_hit (v ∷ vs) w t h = elim (Bool-cases (contains w vs)) [
    | inl later ↦ link_prevs_hit vs w (link_one v t) later
    | inr last ↦
        let same : w ≡ v = (bytes_eq_iff w v).0 (ground arith) in
        link_prevs_other vs w (link_one v t) last
        ∙ subst (λ u. owner_link u (link_one v t) ≡ some (record { prevout = u; entry = e }))
            (sym same) (link_self v t)
  ]

  pub link_prevs-Distinct :
      (vs : List (List ℕ)) (t : Table MpPrev)
      → NoRepeat vs
      → All (λ v. owner_link v t ≡ none) vs
      → DistinctLinks t
      → DistinctLinks (link_prevs e vs t)
  unfolding link_prevs
  link_prevs-Distinct [] t n f d = d
  link_prevs-Distinct (v ∷ vs) t n f d =
      link_prevs-Distinct vs (link_one v t) n.1 (free vs n.0 f.1) (link_Distinct v t f.0 d)
    where
      free :
          (ws : List (List ℕ))
          → contains v ws ≡ false
          → All (λ w. owner_link w t ≡ none) ws
          → All (λ w. owner_link w (link_one v t) ≡ none) ws
      free [] h a = tt
      free (w ∷ ws) h a = (
        link_other v w t (λ same. let k = (bytes_eq_iff v w).1 same in absurd (ground arith)) ∙ a.0,
        free ws (ground arith) a.1,
      )
