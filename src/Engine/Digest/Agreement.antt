-- ===== src/Engine/Digest/Agreement.antt =====
-- What two states with the same bytes agree on: protocol/impls/c/src/digest.c.
use namespace_indexer.Common.{
  ℕ, suc, ◌^◌, ◌<◌, ◌≡◌, refl, ap, sym, subst, ◌∙◌, ◌↔◌, false, List, [], ◌∷◌, ◌++◌, length,
  le_write,
}
use mathlib.Core.Path.{ap₂}
use mathlib.Core.Bool.{Bool-set}
use mathlib.Core.List.{
  Mem, Perm, Pairwise, map, map-id, length-map, append_assoc, append-nil, append_cancel_left,
}
use mathlib.Core.List
use mathlib.Core.Nat
use mathlib.Core.List.Pairwise
use mathlib.Core.List.Perm
use namespace_indexer.Engine.Types.{SmState}
use namespace_indexer.Engine.Digest.{
  Before, StrictOrder, IsOrdered, Qsort, name_before, commit_before, mut_before, name_bytes,
  commit_bytes, mut_bytes, put_all, table_bytes, state_bytes,
}
use namespace_indexer.Engine.Digest.Sorting.{
  Telling, ordered_unique, name_before-StrictOrder, commit_before-StrictOrder,
  mut_before-StrictOrder,
}
use namespace_indexer.Engine.Digest.Prefix.{Prefix, split_number, put_all-Prefix}
use namespace_indexer.Engine.Digest.Fields.{
  untyped, name_bytes-Prefix, commit_bytes-Prefix, mut_bytes-Prefix,
}
use namespace_indexer.Engine.Digest.Keys.{Digestible, names-Telling, commits-Telling, muts-Telling}

-- The tables hold the same elements in any order, but for the types of the owners' addresses.
pub record SameTables (s t : SmState) : Type 0 where
  pub names : Perm (map untyped s.names) (map untyped t.names)
  pub commits : Perm s.commits t.commits
  pub muts : Perm s.muts t.muts

-- The length of the library as a native number.
native : Nat.ℕ → ℕ
native Nat.zero = 0
native (Nat.suc n) = suc (native n)

native-length : {A : Type 0} (xs : List A) → length xs ≡ native (List.length xs)
unfolding native
native-length [] = refl
native-length (x ∷ xs) = ap suc (native-length xs)

length-perm : {A : Type 0} (xs ys : List A) → Perm xs ys → length xs ≡ length ys
length-perm xs ys p = native-length xs ∙ ap native (Perm.length-eq p) ∙ sym (native-length ys)

length-map_native : {A : Type 0} (g : A → A) (xs : List A) → length (map g xs) ≡ length xs
length-map_native g [] = refl
length-map_native g (x ∷ xs) = ap suc (length-map_native g xs)

-- Elements that are alike for the comparison and for the bytes are taken to one by `g`.
module _ {A : Type 0} (before : Before A) (so : StrictOrder before) (g : A → A) (f : A → List ℕ)
    (same_before : (x y : A) → before (g x) (g y) ≡ before x y)
    (same_bytes : (x : A) → f (g x) ≡ f x) (q r : Qsort) where
  map-IsOrdered : (xs : List A) → IsOrdered before xs → IsOrdered before (map g xs)
  map-IsOrdered xs o =
      Pairwise.map (λ a b. Bool-set (before b a) false) g (λ a b h. same_before b a ∙ h) o

  put_all-map : (xs : List A) → put_all f (map g xs) ≡ put_all f xs
  unfolding put_all
  put_all-map [] = refl
  put_all-map (x ∷ xs) = ap₂ ◌++◌ (same_bytes x) (put_all-map xs)

  pub table_bytes-perm :
      (xs ys : List A)
      → Perm (map g xs) (map g ys)
      → Telling before so (map g xs)
      → table_bytes q before f xs ≡ table_bytes r before f ys
  unfolding table_bytes
  table_bytes-perm xs ys p tell =
      let px = Perm.map g (q.perm before xs) in
      let py = Perm.map g (r.perm before ys) in
      let sorted : map g (q.sort before xs) ≡ map g (r.sort before ys) =
        ordered_unique before so (map g (q.sort before xs)) (map g (r.sort before ys))
          (map-IsOrdered (q.sort before xs) (q.ordered before xs so))
          (map-IsOrdered (r.sort before ys) (r.ordered before ys so))
          (Perm.trans px (Perm.trans p (Perm.symm py)))
          λ x y m n. tell x y ((Perm.mem_iff px).0 m) ((Perm.mem_iff px).0 n) in
      let size : length xs ≡ length ys =
        sym (length-map_native g xs)
        ∙ length-perm (map g xs) (map g ys) p
        ∙ length-map_native g ys in
      ap₂ (λ n zs. le_write 4 n ++ zs) size
        (sym (put_all-map (q.sort before xs))
          ∙ ap (put_all f) sorted
          ∙ put_all-map (r.sort before ys))

  pub table_bytes-split :
      {P : A → Type 0} (xs ys : List A) (u v : List ℕ)
      → Prefix P f (λ x y. g x ≡ g y)
      → ((x : A) → Mem x xs → P x)
      → ((y : A) → Mem y ys → P y)
      → length xs < 2 ^ 32
      → length ys < 2 ^ 32
      → table_bytes q before f xs ++ u ≡ table_bytes r before f ys ++ v
      → Perm (map g xs) (map g ys) × (u ≡ v)
  unfolding table_bytes
  table_bytes-split xs ys u v pf fx fy few few' h =
      let xs' = q.sort before xs in
      let ys' = r.sort before ys in
      let px = q.perm before xs in
      let py = r.perm before ys in
      let (size, e) =
        split_number 4 (length xs) (length ys) (put_all f xs' ++ u) (put_all f ys' ++ v) few few' (
          sym (append_assoc (le_write 4 (length xs)) (put_all f xs') u)
          ∙ h
          ∙ append_assoc (le_write 4 (length ys)) (put_all f ys') v) in
      let (sorted, rest) =
        put_all-Prefix f g xs' ys' u v pf (λ x m. fx x ((Perm.mem_iff px).0 m))
          (λ y m. fy y ((Perm.mem_iff py).0 m))
          (length-perm xs' xs px ∙ size ∙ sym (length-perm ys' ys py)) e in
      (
        Perm.trans (Perm.map g (Perm.symm px))
            (subst (λ zs. Perm zs (map g ys)) (sym sorted) (Perm.map g py)),
        rest,
      )

-- A permutation, as one of unchanged elements.
plain_perm : {A : Type 0} (xs ys : List A) → Perm xs ys ↔ Perm (map (λ x. x) xs) (map (λ x. x) ys)
plain_perm xs ys = (
  λ p.
      subst (λ zs. Perm zs (map (λ x. x) ys)) (sym (map-id xs))
        (subst (Perm xs) (sym (map-id ys)) p),
  λ p. subst (λ zs. Perm zs ys) (map-id xs) (subst (Perm (map (λ x. x) xs)) (map-id ys) p),
)

plain-Telling :
    {A : Type 0} (before : Before A) (so : StrictOrder before) (xs : List A)
    → Telling before so xs
    → Telling before so (map (λ x. x) xs)
plain-Telling before so xs t = subst (Telling before so) (sym (map-id xs)) t

regroup : (h a b c : List ℕ) → h ++ a ++ b ++ c ≡ h ++ (a ++ (b ++ (c ++ [])))
regroup h a b c =
    append_assoc (h ++ a) b c
    ∙ append_assoc h a (b ++ c)
    ∙ ap (λ z. h ++ (a ++ (b ++ z))) (sym (append-nil c))

module _ (q r : Qsort) (s t : SmState) (ds : Digestible s) (dt : Digestible t) where
  same_bytes : SameTables s t → state_bytes q s ≡ state_bytes r t
  unfolding state_bytes name_bytes name_before
  same_bytes same =
      let names =
        table_bytes-perm name_before name_before-StrictOrder untyped name_bytes (λ x y. refl)
          (λ x. refl) q r s.names t.names same.names (names-Telling s.names ds.names) in
      let commits =
        table_bytes-perm commit_before commit_before-StrictOrder (λ x. x) commit_bytes (λ x y. refl)
          (λ x. refl) q r s.commits t.commits ((plain_perm s.commits t.commits).0 same.commits)
          (plain-Telling commit_before commit_before-StrictOrder s.commits
            (commits-Telling s ds)) in
      let muts =
        table_bytes-perm mut_before mut_before-StrictOrder (λ x. x) mut_bytes (λ x y. refl)
          (λ x. refl) q r s.muts t.muts ((plain_perm s.muts t.muts).0 same.muts)
          (plain-Telling mut_before mut_before-StrictOrder s.muts (muts-Telling s ds)) in
      let head = b'S' ∷ b'M' ∷ b'v' ∷ b'1' ∷ [] in
      ap₂ ◌++◌ (ap₂ ◌++◌ (ap (λ x. head ++ x) names) commits) muts

  same_tables : state_bytes q s ≡ state_bytes r t → SameTables s t
  unfolding state_bytes name_bytes name_before
  same_tables e =
      let head = b'S' ∷ b'M' ∷ b'v' ∷ b'1' ∷ [] in
      let n = table_bytes q name_before name_bytes s.names in
      let n' = table_bytes r name_before name_bytes t.names in
      let c = table_bytes q commit_before commit_bytes s.commits in
      let c' = table_bytes r commit_before commit_bytes t.commits in
      let m = table_bytes q mut_before mut_bytes s.muts in
      let m' = table_bytes r mut_before mut_bytes t.muts in
      let tables =
        append_cancel_left head (n ++ (c ++ (m ++ []))) (n' ++ (c' ++ (m' ++ [])))
          (sym (regroup head n c m) ∙ e ∙ regroup head n' c' m') in
      let (names, rest) =
        table_bytes-split name_before name_before-StrictOrder untyped name_bytes (λ x y. refl)
          (λ x. refl) q r s.names t.names (c ++ (m ++ [])) (c' ++ (m' ++ [])) name_bytes-Prefix
          ds.rows_fit dt.rows_fit ds.few_names dt.few_names tables in
      let (commits, rest') =
        table_bytes-split commit_before commit_before-StrictOrder (λ x. x) commit_bytes
          (λ x y. refl) (λ x. refl) q r s.commits t.commits (m ++ []) (m' ++ []) commit_bytes-Prefix
          ds.commits_fit dt.commits_fit ds.few_commits dt.few_commits rest in
      let (muts, _) =
        table_bytes-split mut_before mut_before-StrictOrder (λ x. x) mut_bytes (λ x y. refl)
          (λ x. refl) q r s.muts t.muts [] [] mut_bytes-Prefix ds.muts_fit dt.muts_fit ds.few_muts
          dt.few_muts rest' in
      record {
        names = names;
        commits = (plain_perm s.commits t.commits).1 commits;
        muts = (plain_perm s.muts t.muts).1 muts;
      }

  -- For states whose fields and counts fit their widths, whose rows differ in their names, whose
  -- commits differ in commitment, height or place in the block, and whose mutations differ in their
  -- owners, the bytes that are hashed are the same under any two `qsort`s exactly when the tables
  -- hold the same elements in any order, but for the types of the owners' addresses.
  pub state_bytes-SameTables : (state_bytes q s ≡ state_bytes r t) ↔ SameTables s t
  state_bytes-SameTables = (same_tables, same_bytes)
