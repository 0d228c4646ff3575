-- ===== src/Engine/Digest/Keys.antt =====
-- The keys by which src/digest.c orders the tables of a state.
use namespace_indexer.Common.{
  ℕ, ◌^◌, ◌<◌, ◌≡◌, refl, ap, sym, subst, ◌∙◌, false, List, [], ◌∷◌, Option, none, some, arith,
  length, bytes_eq, bytes_eq_iff, bytes_eq_refl, bytes_lt, ltb, le_write, le_read, le_read-le_write,
  Bool-cases, inl, inr,
}
use mathlib.Core.Path.{ap₂}
use mathlib.Core.List.{map, Mem, forall_mem-cons, not-mem-nil}
use namespace_indexer.Engine.Types.{SmNameRow, SmCommit, SmMut, SmState}
use namespace_indexer.Engine.Table.{find_name}
use namespace_indexer.Engine.Table.Laws.{Unique}
use namespace_indexer.Engine.Digest.{Before, then_by, name_before, commit_before, mut_before}
use namespace_indexer.Engine.Digest.Sorting.{
  Telling, name_before-StrictOrder, commit_before-StrictOrder, mut_before-StrictOrder,
}
use namespace_indexer.Engine.Digest.Fields.{RowFits, CommitFits, MutFits, untyped}

-- The fields and the counts fit their widths; no two rows have one name, no two commits agree in
-- commitment, height and place in the block, and no two mutations have one owner.
pub record Digestible (s : SmState) : Type 0 where
  pub names : Unique s.names
  pub commits :
      (x y : SmCommit)
      → Mem x s.commits
      → Mem y s.commits
      → x.commitment ≡ y.commitment
      → x.commit_height ≡ y.commit_height
      → x.tx_index ≡ y.tx_index
      → x ≡ y
  pub muts : (x y : SmMut) → Mem x s.muts → Mem y s.muts → x.owner ≡ y.owner → x ≡ y
  pub rows_fit : (r : SmNameRow) → Mem r s.names → RowFits r
  pub commits_fit : (c : SmCommit) → Mem c s.commits → CommitFits c
  pub muts_fit : (m : SmMut) → Mem m s.muts → MutFits m
  pub few_names : length s.names < 2 ^ 32
  pub few_commits : length s.commits < 2 ^ 32
  pub few_muts : length s.muts < 2 ^ 32

-- Of two texts, one is before the other or they are the same.
bytes_total : (xs ys : List ℕ) → bytes_lt xs ys ≡ false → bytes_lt ys xs ≡ false → xs ≡ ys
unfolding bytes_lt
bytes_total [] [] h k = refl
bytes_total [] (y ∷ ys) h k = absurd (ground arith)
bytes_total (x ∷ xs) [] h k = absurd (ground arith)
bytes_total (x ∷ xs) (y ∷ ys) h k =
    let first : x ≡ y = ground arith in
    ap₂ ◌∷◌ first (bytes_total xs ys (ground arith) (ground arith))

number_total :
    (n a b : ℕ)
    → a < 256 ^ n
    → b < 256 ^ n
    → bytes_lt (le_write n a) (le_write n b) ≡ false
    → bytes_lt (le_write n b) (le_write n a) ≡ false
    → a ≡ b
number_total n a b ha hb h k =
    sym (le_read-le_write n a ha)
    ∙ ap le_read (bytes_total (le_write n a) (le_write n b) h k)
    ∙ le_read-le_write n b hb

find_name-untyped :
    (n : List ℕ) (rs : List SmNameRow) → find_name n rs ≡ none → find_name n (map untyped rs) ≡ none
unfolding find_name
find_name-untyped n [] h = refl
find_name-untyped n (r ∷ rs) h = ground (arith, find_name-untyped n rs)

Unique-untyped : (rs : List SmNameRow) → Unique rs → Unique (map untyped rs)
Unique-untyped [] u = tt
Unique-untyped (r ∷ rs) u = (find_name-untyped r.name rs u.0, Unique-untyped rs u.1)

member_found :
    (rs : List SmNameRow) → Unique rs → (x : SmNameRow) → Mem x rs → find_name x.name rs ≡ some x
unfolding find_name
member_found [] u x m = absurd (not-mem-nil m)
member_found (r ∷ rs) u x m =
    (forall_mem-cons λ y. hlevel).1
      (rw (bytes_eq_refl r.name) refl, λ y n. behind y (member_found rs u.1 y n)) x m
  where
    behind : (y : SmNameRow) → find_name y.name rs ≡ some y → find_name y.name (r ∷ rs) ≡ some y
    behind y f = elim (Bool-cases (bytes_eq r.name y.name)) [
      | inl e ↦
          let same = (bytes_eq_iff r.name y.name).0 e in
          let gone : find_name y.name rs ≡ none = subst (λ n. find_name n rs ≡ none) same u.0 in
          absurd (ground arith)
      | inr e ↦ rw e f
    ]

pub names-Telling :
    (rs : List SmNameRow) → Unique rs → Telling name_before name_before-StrictOrder (map untyped rs)
unfolding name_before
names-Telling rs u x y m n h k =
    let all = member_found (map untyped rs) (Unique-untyped rs u) in
    let fx = all x m in
    let fy = all y n in
    let same = ap (λ w. find_name w (map untyped rs)) (bytes_total x.name y.name h k) in
    let both : Path (Option SmNameRow) (some x) (some y) = sym fx ∙ same ∙ fy in cc

-- Where two comparisons in turn find no difference, neither of them does.
then_by_beside :
    {A : Type 0} (a b : Before A) (x y : A)
    → then_by a b x y ≡ false
    → then_by a b y x ≡ false
    → ((a x y ≡ false) × (a y x ≡ false)) × ((b x y ≡ false) × (b y x ≡ false))
then_by_beside a b x y h k = ((ground arith, ground arith), (ground arith, ground arith))

numbers_equal : (a b : ℕ) → ltb a b ≡ false → ltb b a ≡ false → a ≡ b
numbers_equal a b h k = ground arith

pub commits-Telling :
    (s : SmState) → Digestible s → Telling commit_before commit_before-StrictOrder s.commits
unfolding commit_before
commits-Telling s d x y m n h k =
    let by_commitment : Before SmCommit =
      λ a b. bytes_lt (le_write 32 a.commitment) (le_write 32 b.commitment) in
    let by_height : Before SmCommit = λ a b. ltb a.commit_height b.commit_height in
    let by_index : Before SmCommit = λ a b. ltb a.tx_index b.tx_index in
    let (first, later) = then_by_beside by_commitment (then_by by_height by_index) x y h k in
    let (second, third) = then_by_beside by_height by_index x y later.0 later.1 in
    d.commits x y m n
      (number_total 32 x.commitment y.commitment (d.commits_fit x m).commitment
        (d.commits_fit y n).commitment first.0 first.1)
      (numbers_equal x.commit_height y.commit_height second.0 second.1)
      (numbers_equal x.tx_index y.tx_index third.0 third.1)

pub muts-Telling : (s : SmState) → Digestible s → Telling mut_before mut_before-StrictOrder s.muts
unfolding mut_before
muts-Telling s d x y m n h k =
    d.muts x y m n
      (number_total 20 x.owner y.owner (d.muts_fit x m).owner (d.muts_fit y n).owner h k)
