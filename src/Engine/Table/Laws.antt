-- ===== src/Engine/Table/Laws.antt =====
-- What the row table, the mutation heights and the claim scratch do (state.c and claim.c of
-- protocol/impls/c/src).
use namespace_indexer.Common.{
  ℕ, ◌≡◌, ◌≢◌, refl, ap, ◌∙◌, suc, List, [], ◌∷◌, none, some, false, ltb, if◌then◌else◌, bytes_eq,
  bytes_eq_iff, arith, All, Bool-cases, inl, inr, length,
}
use namespace_indexer.Engine.Types.{SmNameRow, SmMut, SmClaimWin}
use namespace_indexer.Engine.Table.{
  find_name, put_row, add_name, second, last_first, remove_name, last_mutation, bump_mutation,
  find_scratch, set_scratch,
}

-- No two rows have one name.
abbrev pub Unique : List SmNameRow → Type 0
Unique [] = Unit {0}
Unique (r ∷ rs) = (find_name r.name rs ≡ none) × Unique rs

pub find_name-name :
    (n : List ℕ) (rs : List SmNameRow) (r : SmNameRow) → find_name n rs ≡ some r → r.name ≡ n
unfolding find_name
find_name-name n [] r h = ground arith
find_name-name n (q ∷ rs) r h = ground (arith, bytes_eq_iff q.name n, find_name-name n rs r)

pub find_name-put_row :
    (n : List ℕ) (r : SmNameRow) (rs : List SmNameRow) (q : SmNameRow)
    → find_name r.name rs ≡ some q
    → find_name n (put_row r rs) ≡ (if bytes_eq r.name n then some r else find_name n rs)
unfolding find_name put_row
find_name-put_row n r [] q' h = ground arith
find_name-put_row n r (q ∷ rs) q' h = ground (
  arith,
  bytes_eq_iff q.name n,
  bytes_eq_iff q.name r.name,
  bytes_eq_iff r.name n,
  find_name-put_row n r rs q',
)

pub find_name-add_name :
    (n : List ℕ) (r : SmNameRow) (rs : List SmNameRow)
    → find_name r.name rs ≡ none
    → find_name n (add_name r rs) ≡ (if bytes_eq r.name n then some r else find_name n rs)
unfolding find_name add_name
find_name-add_name n r [] h = refl
find_name-add_name n r (q ∷ rs) h = ground (
  arith,
  bytes_eq_iff q.name n,
  bytes_eq_iff q.name r.name,
  bytes_eq_iff r.name n,
  find_name-add_name n r rs,
)

find_name-second :
    (n : List ℕ) (x : SmNameRow) (rs : List SmNameRow)
    → find_name x.name rs ≡ none
    → find_name n (second x rs) ≡ find_name n (x ∷ rs)
unfolding find_name second
find_name-second n x [] h = refl
find_name-second n x (l ∷ rs) h =
    ground (arith, bytes_eq_iff l.name n, bytes_eq_iff x.name n, bytes_eq_iff l.name x.name)

pub find_name-last_first :
    (n : List ℕ) (rs : List SmNameRow) → Unique rs → find_name n (last_first rs) ≡ find_name n rs
unfolding find_name last_first
find_name-last_first n [] u = refl
find_name-last_first n (x ∷ rs) u =
    find_name-second n x (last_first rs) (find_name-last_first x.name rs u.1 ∙ u.0)
    ∙ ap (λ t. if bytes_eq x.name n then some x else t) (find_name-last_first n rs u.1)

Unique-second :
    (x : SmNameRow) (rs : List SmNameRow)
    → find_name x.name rs ≡ none
    → Unique rs
    → Unique (second x rs)
unfolding find_name second
Unique-second x [] h u = (refl, tt)
Unique-second x (l ∷ rs) h u =
    (ground (arith, bytes_eq_iff l.name x.name, bytes_eq_iff x.name l.name), (ground arith, u.1))

pub Unique-last_first : (rs : List SmNameRow) → Unique rs → Unique (last_first rs)
unfolding last_first
Unique-last_first [] u = tt
Unique-last_first (x ∷ rs) u =
    Unique-second x (last_first rs) (find_name-last_first x.name rs u.1 ∙ u.0)
      (Unique-last_first rs u.1)

pub find_name-remove_name :
    (m n : List ℕ) (rs : List SmNameRow)
    → Unique rs
    → find_name m (remove_name n rs) ≡ (if bytes_eq n m then none else find_name m rs)
unfolding find_name remove_name
find_name-remove_name m n [] u = ground arith
find_name-remove_name m n (r ∷ rs) u = ground (
  arith,
  bytes_eq_iff r.name m,
  bytes_eq_iff r.name n,
  bytes_eq_iff n m,
  find_name-last_first m rs u.1,
  find_name-remove_name m n rs u.1,
)

-- Another name is found as before, whether the row was there or not.
pub find_name-put_row_ne :
    (n : List ℕ) (r : SmNameRow) (rs : List SmNameRow)
    → bytes_eq r.name n ≡ false
    → find_name n (put_row r rs) ≡ find_name n rs
unfolding find_name put_row
find_name-put_row_ne n r [] h = refl
find_name-put_row_ne n r (q ∷ rs) h = ground (
  arith,
  bytes_eq_iff q.name n,
  bytes_eq_iff q.name r.name,
  bytes_eq_iff r.name n,
  find_name-put_row_ne n r rs,
)

pub Unique-put_row : (r : SmNameRow) (rs : List SmNameRow) → Unique rs → Unique (put_row r rs)
unfolding put_row
Unique-put_row r [] u = tt
Unique-put_row r (x ∷ rs) u = elim (Bool-cases (bytes_eq x.name r.name)) [
  | inl e ↦ rw e (rw ((bytes_eq_iff x.name r.name).0 e) at u.0, u.1)
  | inr e ↦ rw e (
    find_name-put_row_ne x.name r rs
          (ground (arith, bytes_eq_iff r.name x.name, bytes_eq_iff x.name r.name))
        ∙ u.0,
    Unique-put_row r rs u.1,
  )
]

pub Unique-add_name :
    (r : SmNameRow) (rs : List SmNameRow)
    → find_name r.name rs ≡ none
    → Unique rs
    → Unique (add_name r rs)
unfolding find_name add_name
Unique-add_name r [] h u = (refl, tt)
Unique-add_name r (x ∷ rs) h u = (
  unfold add_name in
      rw (find_name-add_name x.name r rs (ground arith))
        (ground (arith, bytes_eq_iff r.name x.name, bytes_eq_iff x.name r.name, u.0)),
  Unique-add_name r rs (ground arith) u.1,
)

pub Unique-remove_name : (n : List ℕ) (rs : List SmNameRow) → Unique rs → Unique (remove_name n rs)
unfolding remove_name
Unique-remove_name n [] u = tt
Unique-remove_name n (r ∷ rs) u = elim (Bool-cases (bytes_eq r.name n)) [
  | inl e ↦ rw e (Unique-last_first rs u.1)
  | inr e ↦ rw e (
    rw (find_name-remove_name r.name n rs u.1) (ground (arith, u.0)),
    Unique-remove_name n rs u.1,
  )
]

-- A predicate on all rows, through each change of the table.
module _ {ℓ} (P : SmNameRow → Type ℓ) where
  pub All-find_name :
      (n : List ℕ) (rs : List SmNameRow) (r : SmNameRow) → All P rs → find_name n rs ≡ some r → P r
  unfolding find_name
  All-find_name n [] r a h = absurd (ground arith)
  All-find_name n (q ∷ rs) r a h = elim (Bool-cases (bytes_eq q.name n)) [
    | inl e ↦ let same : q ≡ r = ground arith in rw same at a.0
    | inr e ↦ All-find_name n rs r a.1 (ground arith)
  ]

  pub All-put_row : (r : SmNameRow) (rs : List SmNameRow) → P r → All P rs → All P (put_row r rs)
  unfolding put_row
  All-put_row r [] p a = tt
  All-put_row r (q ∷ rs) p a = elim (Bool-cases (bytes_eq q.name r.name)) [
    | inl e ↦ rw e (p, a.1)
    | inr e ↦ rw e (a.0, All-put_row r rs p a.1)
  ]

  pub All-add_name : (r : SmNameRow) (rs : List SmNameRow) → P r → All P rs → All P (add_name r rs)
  unfolding add_name
  All-add_name r [] p a = (p, tt)
  All-add_name r (q ∷ rs) p a = (a.0, All-add_name r rs p a.1)

  All-second : (x : SmNameRow) (rs : List SmNameRow) → P x → All P rs → All P (second x rs)
  unfolding second
  All-second x [] p a = (p, tt)
  All-second x (l ∷ rs) p a = (a.0, (p, a.1))

  pub All-last_first : (rs : List SmNameRow) → All P rs → All P (last_first rs)
  unfolding last_first
  All-last_first [] a = tt
  All-last_first (x ∷ rs) a = All-second x (last_first rs) a.0 (All-last_first rs a.1)

  pub All-remove_name : (n : List ℕ) (rs : List SmNameRow) → All P rs → All P (remove_name n rs)
  unfolding remove_name
  All-remove_name n [] a = tt
  All-remove_name n (r ∷ rs) a = elim (Bool-cases (bytes_eq r.name n)) [
    | inl e ↦ rw e (All-last_first rs a.1)
    | inr e ↦ rw e (a.0, All-remove_name n rs a.1)
  ]

length-second : (x : SmNameRow) (rs : List SmNameRow) → length (second x rs) ≡ suc (length rs)
unfolding second
length-second x [] = refl
length-second x (l ∷ rs) = refl

pub length-last_first : (rs : List SmNameRow) → length (last_first rs) ≡ length rs
unfolding last_first
length-last_first [] = refl
length-last_first (x ∷ rs) = length-second x (last_first rs) ∙ ap suc (length-last_first rs)

pub last_mutation-bump_mutation_ne :
    (o w h : ℕ) (ms : List SmMut)
    → w ≢ o
    → last_mutation o (bump_mutation w h ms) ≡ last_mutation o ms
unfolding last_mutation bump_mutation
last_mutation-bump_mutation_ne o w h [] d = ground arith
last_mutation-bump_mutation_ne o w h (m ∷ ms) d =
    ground (arith, last_mutation-bump_mutation_ne o w h ms)

pub last_mutation-bump_mutation_self :
    (w h : ℕ) (ms : List SmMut)
    → last_mutation w (bump_mutation w h ms)
      ≡ (if ltb (last_mutation w ms) h then h else last_mutation w ms)
unfolding last_mutation bump_mutation
last_mutation-bump_mutation_self w h [] = ground arith
last_mutation-bump_mutation_self w h (m ∷ ms) =
    ground (arith, last_mutation-bump_mutation_self w h ms)

pub find_scratch-set_scratch :
    (n : List ℕ) (w : SmClaimWin) (ws : List SmClaimWin)
    → find_scratch n (set_scratch w ws) ≡ (if bytes_eq w.name n then some w else find_scratch n ws)
unfolding find_scratch set_scratch
find_scratch-set_scratch n w [] = refl
find_scratch-set_scratch n w (v ∷ ws) = ground (
  arith,
  bytes_eq_iff v.name n,
  bytes_eq_iff v.name w.name,
  bytes_eq_iff w.name n,
  find_scratch-set_scratch n w ws,
)
