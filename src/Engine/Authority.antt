-- ===== src/Engine/Authority.antt =====
-- What a transaction does to a name that its signers do not own: fold.c with every handler, in
-- protocol/impls/c/src.
pub mod Handlers
pub mod Dealings
pub mod Walk
use namespace_indexer.Common.{
  ℕ, zero, suc, ◌≡◌, ◌≢◌, refl, ◌∙◌, Bool, true, false, List, [], ◌∷◌, some, none, if◌then◌else◌,
  arith, All, Bool-cases, inl, inr, bytes_eq, bytes_eq_iff,
}
use namespace_indexer.Engine.Types.{SmNameRow, SmState, is_owned}
use namespace_indexer.Engine.Table.{find_name, find_scratch}
use namespace_indexer.Engine.Table.Laws.{Unique}
use namespace_indexer.Engine.Bitmap.{controls, mine}

-- The row of the name is as it was, and no claim of this block minted it.
pub record Untouched (n : List ℕ) (r : SmNameRow) (s : SmState) : Type 0 where
  pub row : find_name n s.names ≡ some r
  pub settled : find_scratch n s.claimsc ≡ none

-- A row with another name.
abbrev pub Other : List ℕ → SmNameRow → Type 0
Other n x = bytes_eq x.name n ≡ false

absent-Other : (n : List ℕ) (rs : List SmNameRow) → find_name n rs ≡ none → All (Other n) rs
unfolding find_name
absent-Other n [] h = tt
absent-Other n (r ∷ rs) h = (ground arith, absent-Other n rs (ground arith))

mine-Other :
    (n : List ℕ) (who : ℕ) (rs : List SmNameRow) → All (Other n) rs → All (Other n) (mine who rs)
unfolding mine
mine-Other n who [] a = tt
mine-Other n who (r ∷ rs) a = elim (Bool-cases (controls who r)) [
  | inl e ↦ rw e (a.0, mine-Other n who rs a.1)
  | inr e ↦ rw e (mine-Other n who rs a.1)
]

-- A name that `who` does not control is not in the owned set of `who`.
pub mine-foreign :
    (n : List ℕ) (r : SmNameRow) (who : ℕ) (rs : List SmNameRow)
    → Unique rs
    → find_name n rs ≡ some r
    → controls who r ≡ false
    → All (Other n) (mine who rs)
unfolding find_name mine
mine-foreign n r who [] u h foreign = tt
mine-foreign n r who (q ∷ rs) u h foreign = elim (Bool-cases (bytes_eq q.name n)) [
  | inl here ↦
      let same : q ≡ r = ground arith in
      let gone : find_name n rs ≡ none = rw (← (bytes_eq_iff q.name n).0 here) u.0 in
      let not_mine : controls who q ≡ false = rw same foreign in
      rw not_mine (mine-Other n who rs (absent-Other n rs gone))
  | inr there ↦ elim (Bool-cases (controls who q)) [
    | inl e ↦ rw e (there, mine-foreign n r who rs u.1 (ground arith) foreign)
    | inr e ↦ rw e (mine-foreign n r who rs u.1 (ground arith) foreign)
  ]
]

pub foreign-controls :
    (r : SmNameRow) (who : ℕ) → is_owned r.st ≡ true → r.owner ≢ who → controls who r ≡ false
unfolding controls
foreign-controls r who own d = ground arith
