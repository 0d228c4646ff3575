-- ===== src/Engine/Digest.antt =====
-- The digest of a state: protocol/impls/c/src/digest.c. The arrays of indices that the source sorts
-- are the lists of what they point to. `qsort` is a parameter, and so is the hash of sha256.c.
pub mod Sorting
pub mod Prefix
pub mod Fields
pub mod Keys
pub mod Agreement
use namespace_indexer.Common.{
  ℕ, ◌≡◌, Bool, true, false, List, [], ◌∷◌, ◌++◌, ltb, if◌then◌else◌, length, bytes_lt, le_write,
}
use mathlib.Core.List.{Perm, Pairwise}
use namespace_indexer.Engine.Types.{SmNameRow, SmNameState, SmCommit, SmMut, SmState}

-- A comparison that `qsort` takes: x is before y where it is negative.
abbrev pub Before : Type 0 → Type 0
Before A = A → A → Bool

-- A total preorder, by the test of one before the other.
pub record StrictOrder {A : Type 0} (before : Before A) : Type 0 where
  pub asym : (x y : A) → before x y ≡ true → before y x ≡ false
  pub weak : (x y z : A) → before x y ≡ false → before y z ≡ false → before x z ≡ false

-- No later element is before an earlier one.
abbrev pub IsOrdered : {A : Type 0} → Before A → List A → Type 0
IsOrdered before = Pairwise (λ x y. before y x ≡ false)

-- `qsort` of the C library: it permutes the array, and it orders it where the comparison is a
-- total preorder. Which of two equal elements comes first is not specified.
pub record Qsort : Type 1 where
  pub sort : {A : Type 0} → Before A → List A → List A
  pub perm : {A : Type 0} (before : Before A) (xs : List A) → Perm (sort before xs) xs
  pub ordered :
      {A : Type 0} (before : Before A) (xs : List A)
      → StrictOrder before
      → IsOrdered before (sort before xs)

-- One comparison, and another one where it finds no difference.
abbrev pub then_by : {A : Type 0} → Before A → Before A → Before A
then_by a b x y = if a x y then true else if a y x then false else b x y

unfoldable pub name_before : Before SmNameRow
unfolding bytes_lt
name_before x y = bytes_lt x.name y.name

unfoldable pub commit_before : Before SmCommit
unfolding bytes_lt le_write
commit_before =
    then_by (λ x y. bytes_lt (le_write 32 x.commitment) (le_write 32 y.commitment))
      (then_by (λ x y. ltb x.commit_height y.commit_height) (λ x y. ltb x.tx_index y.tx_index))

unfoldable pub mut_before : Before SmMut
unfolding bytes_lt le_write
mut_before x y = bytes_lt (le_write 20 x.owner) (le_write 20 y.owner)

unfoldable pub state_code : SmNameState → ℕ
state_code SmNameState.owned = 0
state_code SmNameState.listed = 1
state_code SmNameState.offered = 2
state_code SmNameState.reserved = 3

-- A row; the type of its owner is left out.
unfoldable pub name_bytes : SmNameRow → List ℕ
unfolding le_write state_code
name_bytes r =
    le_write 1 (length r.name)
    ++ r.name
    ++ le_write 20 r.owner
    ++ le_write 1 (state_code r.st)
    ++ le_write 8 r.lease_expiry
    ++ le_write 20 r.seller
    ++ le_write 1 r.seller_type
    ++ le_write 8 r.price
    ++ le_write 8 r.offer_expiry
    ++ le_write 20 r.buyer
    ++ le_write 8 r.burn_leg
    ++ le_write 8 r.pay_leg
    ++ le_write 8 r.reserve_expiry

unfoldable pub commit_bytes : SmCommit → List ℕ
unfolding le_write
commit_bytes c =
    le_write 32 c.commitment
    ++ le_write 8 c.commit_height
    ++ le_write 4 c.tx_index
    ++ le_write 8 c.commit_time

unfoldable pub mut_bytes : SmMut → List ℕ
unfolding le_write
mut_bytes m = le_write 20 m.owner ++ le_write 8 m.height

-- The loop over a sorted table.
unfoldable pub put_all : {A : Type 0} → (A → List ℕ) → List A → List ℕ
put_all f [] = []
put_all f (x ∷ xs) = f x ++ put_all f xs

module _ (q : Qsort) where
  -- The count of a table and its elements in their order.
  unfoldable pub table_bytes : {A : Type 0} → Before A → (A → List ℕ) → List A → List ℕ
  unfolding le_write put_all
  table_bytes before f xs = le_write 4 (length xs) ++ put_all f (q.sort before xs)

  unfoldable pub state_bytes : SmState → List ℕ
  unfolding table_bytes name_before commit_before mut_before name_bytes commit_bytes mut_bytes
  state_bytes s =
      b'S' ∷ b'M' ∷ b'v' ∷ b'1' ∷ []
      ++ table_bytes name_before name_bytes s.names
      ++ table_bytes commit_before commit_bytes s.commits
      ++ table_bytes mut_before mut_bytes s.muts

  unfoldable pub state_digest : (List ℕ → ℕ) → SmState → ℕ
  unfolding state_bytes
  state_digest sha256 s = sha256 (state_bytes s)
