-- ===== src/Engine/Preblock/Lookup.antt =====
-- The transitions of preblock.c, name by name.
use namespace_indexer.Common.{
  ℕ, zero, suc, ◌≡◌, refl, ap, sym, ◌∙◌, subst, true, false, List, [], ◌∷◌, Option, none, some, leb,
  ◌≤◌, if◌then◌else◌, arith, Bool-cases, inl, inr, length, bytes_eq, bytes_eq_iff,
}
use namespace_indexer.Engine.Types.{SmNameRow, SmMut, SmState}
use namespace_indexer.Engine.Table.{find_name, last_first, bump_mutation, count_ev}
use namespace_indexer.Engine.Table.Laws.{
  Unique, find_name-last_first, Unique-last_first, length-last_first,
}
use namespace_indexer.Engine.Event.{ev_lapse}
use namespace_indexer.Engine.Preblock.{settle_row, sweep, preblock}

-- What the transitions make of one row: gone when its lease is over.
unfoldable pub swept_row : ℕ → Option SmNameRow → Option SmNameRow
swept_row mtp none = none
swept_row mtp (some r) =
    if leb (settle_row mtp r).lease_expiry mtp then none else some (settle_row mtp r)

pub settle_row-name : (mtp : ℕ) (r : SmNameRow) → (settle_row mtp r).name ≡ r.name
unfolding settle_row
settle_row-name mtp r = ground arith

find_name_behind :
    (n : List ℕ) (r : SmNameRow) (rs : List SmNameRow)
    → bytes_eq r.name n ≡ true
    → find_name r.name rs ≡ none
    → find_name n rs ≡ none
find_name_behind n r rs e h = subst (λ m. find_name m rs ≡ none) ((bytes_eq_iff r.name n).0 e) h

-- A row whose lease is over is found as if it were not there.
swept_gone :
    (n : List ℕ) (mtp : ℕ) (r : SmNameRow) (rs : List SmNameRow)
    → leb (settle_row mtp r).lease_expiry mtp ≡ true
    → find_name r.name rs ≡ none
    → swept_row mtp (find_name n (r ∷ rs)) ≡ swept_row mtp (find_name n rs)
unfolding find_name swept_row
swept_gone n mtp r rs lapsed h = ground (arith, find_name_behind n r rs)

-- Any other is found as the transitions leave it.
swept_kept :
    (n : List ℕ) (mtp : ℕ) (r : SmNameRow) (rs kept : List SmNameRow)
    → leb (settle_row mtp r).lease_expiry mtp ≡ false
    → find_name n kept ≡ swept_row mtp (find_name n rs)
    → find_name n (settle_row mtp r ∷ kept) ≡ swept_row mtp (find_name n (r ∷ rs))
unfolding find_name swept_row
swept_kept n mtp r rs kept alive h =
    let same = ap (λ m. bytes_eq m n) (settle_row-name mtp r) in
    elim (Bool-cases (bytes_eq r.name n)) [
      | inl e ↦ rw (same ∙ e, e, alive) refl
      | inr e ↦ rw (same ∙ e, e) h
    ]

pub find_name-sweep :
    (n : List ℕ) (fuel height mtp : ℕ) (rs : List SmNameRow) (muts : List SmMut) (ev : List ℕ)
    → length rs ≤ fuel
    → Unique rs
    → find_name n (sweep fuel height mtp rs muts ev).rows ≡ swept_row mtp (find_name n rs)
unfolding sweep
find_name-sweep n zero height mtp [] muts ev h u = unfold find_name swept_row in refl
find_name-sweep n zero height mtp (r ∷ rs) muts ev h u = elim h [ ]
find_name-sweep n (suc fuel) height mtp [] muts ev h u = unfold find_name swept_row in refl
find_name-sweep n (suc fuel) height mtp (r ∷ rs) muts ev h u =
    elim (Bool-cases (leb (settle_row mtp r).lease_expiry mtp)) [
      | inl lapsed ↦
          let rest =
            find_name-sweep n fuel height mtp (last_first rs)
              (bump_mutation (settle_row mtp r).owner height muts) (count_ev ev_lapse ev)
              (omega (arith, length-last_first rs)) (Unique-last_first rs u.1)
            ∙ ap (swept_row mtp) (find_name-last_first n rs u.1) in
          rw lapsed (rest ∙ sym (swept_gone n mtp r rs lapsed u.0))
      | inr kept ↦
          let rest = find_name-sweep n fuel height mtp rs muts ev (omega arith) u.1 in
          rw kept (swept_kept n mtp r rs _ kept rest)
    ]

-- No name comes up that was not there.
pub swept_absent :
    (n : List ℕ) (fuel height mtp : ℕ) (rs : List SmNameRow) (muts : List SmMut) (ev : List ℕ)
    → length rs ≤ fuel
    → Unique rs
    → find_name n rs ≡ none
    → find_name n (sweep fuel height mtp rs muts ev).rows ≡ none
unfolding swept_row
swept_absent n fuel height mtp rs muts ev h u absent =
    find_name-sweep n fuel height mtp rs muts ev h u ∙ ap (swept_row mtp) absent

-- After the transitions each name is found exactly as its own row demands, with no other row in
-- play: the loop that swaps rows about neither skips a row nor visits one twice.
pub find_name-preblock :
    (n : List ℕ) (height mtp : ℕ) (s : SmState)
    → Unique s.names
    → find_name n (preblock height mtp s).names ≡ swept_row mtp (find_name n s.names)
unfolding preblock
find_name-preblock n height mtp s u =
    find_name-sweep n (length s.names) height mtp s.names s.muts s.ev (omega arith) u
