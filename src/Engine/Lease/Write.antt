-- ===== src/Engine/Lease/Write.antt =====
-- What the water-fill of lease.c does to the table of names.
use namespace_indexer.Common.{
  ℕ, ◌+◌, ◌≤◌, ◌≡◌, refl, ◌∙◌, List, [], ◌∷◌, false, Bool-cases, inl, inr, arith, All, bytes_eq,
  bytes_lt,
}
use namespace_indexer.Engine.Const.{max_lease}
use namespace_indexer.Engine.Types.{SmNameRow, SmState}
use namespace_indexer.Engine.Table.{find_name, put_row}
use namespace_indexer.Engine.Table.Laws.{Unique, Unique-put_row, All-put_row, find_name-put_row_ne}
use namespace_indexer.Engine.Lease.{
  Slot, headroom, new_slots, insert_row, sort_rows, extended, write_slots, fill, award, raw_t,
  waterfill,
}
use namespace_indexer.Engine.Lease.Bounds.{Fits, Fresh, fill-conserves}
use namespace_indexer.Engine.Lease.Shape.{Of, fill-Of}

pub write_slots-Unique :
    (xs : List Slot) (rs : List SmNameRow) → Unique rs → Unique (write_slots xs rs)
unfolding write_slots
write_slots-Unique [] rs u = u
write_slots-Unique (x ∷ xs) rs u =
    write_slots-Unique xs (put_row (extended x) rs) (Unique-put_row (extended x) rs u)

pub write_slots-All {ℓ} :
    (P : SmNameRow → Type ℓ) (xs : List Slot) (rs : List SmNameRow)
    → All (λ x. P (extended x)) xs
    → All P rs
    → All P (write_slots xs rs)
unfolding write_slots
write_slots-All P [] rs px pr = pr
write_slots-All P (x ∷ xs) rs px pr =
    write_slots-All P xs (put_row (extended x) rs) px.1 (All-put_row P (extended x) rs px.0 pr)

-- A name that is not among the targets keeps its row.
pub find_name-write_slots :
    (n : List ℕ) (xs : List Slot) (rs : List SmNameRow)
    → All (λ x. bytes_eq x.row.name n ≡ false) xs
    → find_name n (write_slots xs rs) ≡ find_name n rs
unfolding write_slots
find_name-write_slots n [] rs a = refl
find_name-write_slots n (x ∷ xs) rs a =
    find_name-write_slots n xs (put_row (extended x) rs) a.1
    ∙ find_name-put_row_ne n (extended x) rs (unfold extended in a.0)

module _ {ℓ} (P : SmNameRow → Type ℓ) where
  insert_row-All : (r : SmNameRow) (rs : List SmNameRow) → P r → All P rs → All P (insert_row r rs)
  unfolding insert_row
  insert_row-All r [] p a = (p, tt)
  insert_row-All r (q ∷ rs) p a = elim (Bool-cases (bytes_lt q.name r.name)) [
    | inl e ↦ rw e (a.0, insert_row-All r rs p a.1)
    | inr e ↦ rw e (p, a)
  ]

  pub sort_rows-All : (rs : List SmNameRow) → All P rs → All P (sort_rows rs)
  unfolding sort_rows
  sort_rows-All [] a = tt
  sort_rows-All (r ∷ rs) a = insert_row-All r (sort_rows rs) a.0 (sort_rows-All rs a.1)

-- A target row with its headroom.
abbrev Headed {ℓ} : ℕ → (SmNameRow → Type ℓ) → SmNameRow → ℕ → Type ℓ
Headed now P r head = P r × (head ≡ headroom now r)

new_slots-Headed {ℓ} :
    (P : SmNameRow → Type ℓ) (now : ℕ) (rs : List SmNameRow)
    → All P rs
    → All (Of (Headed now P)) (new_slots now rs) × All Fresh (new_slots now rs)
unfolding new_slots
new_slots-Headed P now [] a = (tt, tt)
new_slots-Headed P now (r ∷ rs) a =
    let rest = new_slots-Headed P now rs a.1 in (((a.0, refl), rest.0), (refl, rest.1))

-- The lease after an award ends no later than a full lease from now, unless it did so before.
extended-bound :
    (now : ℕ) (x : Slot)
    → x.head ≡ headroom now x.row
    → x.add ≤ x.head
    → x.row.lease_expiry ≤ now + max_lease
    → (extended x).lease_expiry ≤ now + max_lease
unfolding extended headroom
extended-bound now x h fits within = omega arith

-- What is known of each target, after its row is extended.
pub award-All {ℓ κ} :
    (P : SmNameRow → Type ℓ) (Q : SmNameRow → Type κ) (now : ℕ)
    → ((x : Slot) → P x.row → x.head ≡ headroom now x.row → x.add ≤ x.head → Q (extended x))
    → (rate burn : ℕ) (rs : List SmNameRow) → All P rs
    → All (λ x. Q (extended x)) (award now rate burn rs)
unfolding award
award-All P Q now step rate burn rs a =
    let slots = new_slots now (sort_rows rs) in
    let (headed, fresh) = new_slots-Headed P now (sort_rows rs) (sort_rows-All P rs a) in
    join (fill (raw_t burn rate) slots) (fill-Of (Headed now P) (raw_t burn rate) slots headed)
      (fill-conserves (raw_t burn rate) slots fresh).1
  where
    join :
        (xs : List Slot) → All (Of (Headed now P)) xs → All Fits xs → All (λ x. Q (extended x)) xs
    join [] h f = tt
    join (x ∷ xs) h f = (step x h.0.0 h.0.1 f.0, join xs h.1 f.1)

extended-name :
    (n : List ℕ) (xs : List Slot)
    → All (λ x. bytes_eq (extended x).name n ≡ false) xs
    → All (λ x. bytes_eq x.row.name n ≡ false) xs
unfolding extended
extended-name n [] a = tt
extended-name n (x ∷ xs) a = (a.0, extended-name n xs a.1)

-- The water-fill leaves a name that is not among its targets as it was.
pub find_name-waterfill :
    (n : List ℕ) (now rate burn : ℕ) (rows : List SmNameRow) (s : SmState)
    → All (λ r. bytes_eq r.name n ≡ false) rows
    → find_name n (waterfill now rate burn rows s).names ≡ find_name n s.names
unfolding waterfill
find_name-waterfill n now rate burn rows s a =
    find_name-write_slots n (award now rate burn rows) s.names (
      extended-name n (award now rate burn rows) (
        award-All (λ r. bytes_eq r.name n ≡ false) (λ r. bytes_eq r.name n ≡ false) now
          (λ x h _ _. unfold extended in h) rate burn rows a))
