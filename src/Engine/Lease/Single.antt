-- ===== src/Engine/Lease/Single.antt =====
-- The water-fill of lease.c over one name, as CLAIM and RENEW_NAME use it.
use namespace_indexer.Common.{
  ℕ, ◌+◌, ◌*◌, ◌≡◌, refl, ap, ◌∙◌, List, [], ◌∷◌, some, arith, All, min, length, bytes_eq,
  if◌then◌else◌,
}
use namespace_indexer.Engine.Const.{billing_unit}
use namespace_indexer.Engine.Types.{SmNameRow, SmState}
use namespace_indexer.Engine.Table.{find_name, put_row}
use namespace_indexer.Engine.Table.Laws.{find_name-put_row}
use namespace_indexer.Engine.Lease.{
  Slot, headroom, new_slots, total_head, sort_rows, extended, write_slots, award, raw_t, fill,
  waterfill,
}
use namespace_indexer.Engine.Lease.Bounds.{total_add, award-conserves}
use namespace_indexer.Engine.Lease.Shape.{fill-Of, length-fill}

-- The row with the lease that a burn buys it.
unfoldable pub bought : ℕ → ℕ → ℕ → SmNameRow → SmNameRow
bought now rate burn r = record r {
  lease_expiry = r.lease_expiry + min (raw_t burn rate) (headroom now r) * billing_unit;
}

one_slot :
    (r : SmNameRow) (days : ℕ) (xs : List Slot)
    → length xs ≡ 1
    → All (λ x. x.row ≡ r) xs
    → total_add xs ≡ days
    → (x : Slot) × (xs ≡ x ∷ []) × (x.row ≡ r) × (x.add ≡ days)
unfolding total_add
one_slot r days [] e a t = absurd (omega arith)
one_slot r days (x ∷ []) e a t = (x, refl, a.0, omega (arith, t))
one_slot r days (x ∷ y ∷ xs) e a t = absurd (omega arith)

award-single :
    (now rate burn : ℕ) (r : SmNameRow)
    → (x : Slot) × (award now rate burn (r ∷ []) ≡ x ∷ [])
      × (x.row ≡ r)
      × (x.add ≡ min (raw_t burn rate) (headroom now r))
unfolding award
award-single now rate burn r =
    let slots = new_slots now (sort_rows (r ∷ [])) in
    let total = (award-conserves now rate burn (r ∷ [])).0 in
    one_slot r (min (raw_t burn rate) (headroom now r)) (fill (raw_t burn rate) slots)
      (length-fill (raw_t burn rate) slots ∙ single_length)
      (fill-Of (λ q _. q ≡ r) (raw_t burn rate) slots single_row)
      (total ∙ ap (min (raw_t burn rate)) single_head)
  where
    single_length : length (new_slots now (sort_rows (r ∷ []))) ≡ 1
    single_length = unfold new_slots sort_rows in refl

    single_row : All (λ x. x.row ≡ r) (new_slots now (sort_rows (r ∷ [])))
    single_row = unfold new_slots sort_rows in (refl, tt)

    single_head : total_head (new_slots now (sort_rows (r ∷ []))) ≡ headroom now r
    single_head = unfold new_slots sort_rows total_head in omega arith

extended-bought :
    (now rate burn : ℕ) (r : SmNameRow) (x : Slot)
    → x.row ≡ r
    → x.add ≡ min (raw_t burn rate) (headroom now r)
    → extended x ≡ bought now rate burn r
unfolding extended bought
extended-bought now rate burn r x e f =
    ap {B = SmNameRow} (λ q. record q { lease_expiry = q.lease_expiry + x.add * billing_unit }) e
    ∙ ap {B = SmNameRow} (λ d. record r { lease_expiry = r.lease_expiry + d * billing_unit }) f

-- Over one name that is in the table, the water-fill writes that name's row with its lease
-- lengthened by the days bought, up to its headroom, and no other row.
pub find_name-waterfill_single :
    (n : List ℕ) (now rate burn : ℕ) (r q : SmNameRow) (s : SmState)
    → find_name r.name s.names ≡ some q
    → find_name n (waterfill now rate burn (r ∷ []) s).names
      ≡ (if bytes_eq r.name n then some (bought now rate burn r) else find_name n s.names)
unfolding waterfill write_slots
find_name-waterfill_single n now rate burn r q s found =
    let (x, one, row, days) = award-single now rate burn r in
    let same = extended-bought now rate burn r x row days in
    ap (λ xs. find_name n (write_slots xs s.names)) one
    ∙ ap (λ t. find_name n (put_row t s.names)) same
    ∙ find_name-put_row n (bought now rate burn r) s.names q (unfold bought in found)
    ∙ (unfold bought in refl)
