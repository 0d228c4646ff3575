-- ===== src/Engine/Codec/Layout.antt =====
-- The fields of a payload and its cuts: protocol/impls/c/src/decode.c.
use namespace_indexer.Common.{
  ℕ, suc, ◌+◌, ◌≤◌, ◌<◌, ◌≡◌, refl, sym, ap, ◌∙◌, subst, Bool, true, false, inl, inr, List, [], ◌∷◌,
  ◌++◌, Option, some, ◌==◌, ==_iff, Bool-cases, Option-cases, arith, ◌>>◌, guard, All, All-take,
  All-drop, length, take, drop, length-take, length-drop, take-drop, drop-drop, le_write,
  le_write-le_read,
}
use namespace_indexer.Engine.Name.{name_valid, byte_at}
use namespace_indexer.Engine.Codec.{read_at, last_comma, is_name_op, fits}

abbrev pub Byte : ℕ → Type 0
Byte x = x < 256

-- A number written again gives the bytes that it was read from.
pub reread :
    (i n : ℕ) (b : List ℕ)
    → All Byte b
    → n ≤ length (drop i b)
    → le_write n (read_at i n b) ≡ take n (drop i b)
reread i n b bytes le =
    let len : length (take n (drop i b)) ≡ n = length-take n (drop i b) le in
    ap (λ k. le_write k (read_at i n b)) (sym len)
    ∙ le_write-le_read (take n (drop i b)) (All-take Byte n (drop i b) (All-drop Byte i b bytes))

pub two_parts :
    (n m k : ℕ) (b : List ℕ) → n + m ≡ k → take n b ++ (take m (drop n b) ++ drop k b) ≡ b
two_parts n m k b e =
    ap (λ t. take n b ++ (take m (drop n b) ++ t)) (sym (drop-drop m n b ∙ ap (λ j. drop j b) e))
    ∙ ap (λ t. take n b ++ t) (take-drop m (drop n b))
    ∙ take-drop n b

pub guard-true {ℓ} : {A : Type ℓ} (c : Bool) (k : Option A) → c ≡ true → (guard c >> k) ≡ k
guard-true true k h = refl
guard-true false k h = absurd (ground arith)

pub tail_fits : (n : ℕ) (b : List ℕ) → n + 1 ≤ length b → length b ≤ n + 32 → fits (drop n b) ≡ true
tail_fits n b low high = let e = length-drop n b in ground arith

pub valid_fits : (name : List ℕ) → name_valid name ≡ true → fits name ≡ true
unfolding name_valid
valid_fits name h = ground arith

pub name_op :
    (P : ℕ → Type 0)
    → P 0x01
    → P 0x0B
    → P 0x08
    → P 0x09
    → P 0x0D
    → (op : ℕ) → is_name_op op ≡ true
    → P op
name_op P p1 pb p8 p9 pd op h = elim (Bool-cases (op == 0x01)) [
  | inl e ↦ subst P (sym ((==_iff op 0x01).0 e)) p1
  | inr n1 ↦ elim (Bool-cases (op == 0x0B)) [
    | inl e ↦ subst P (sym ((==_iff op 0x0B).0 e)) pb
    | inr nb ↦ elim (Bool-cases (op == 0x08)) [
      | inl e ↦ subst P (sym ((==_iff op 0x08).0 e)) p8
      | inr n8 ↦ elim (Bool-cases (op == 0x09)) [
        | inl e ↦ subst P (sym ((==_iff op 0x09).0 e)) p9
        | inr n9 ↦
            let last = rw (n1, nb, n8, n9) at h in let e : 0x0D ≡ op = ground arith in subst P e pd
      ]
    ]
  ]
]

pub at_comma :
    (xs : List ℕ) (c : ℕ) → last_comma xs ≡ some c → take c xs ++ (0x2C ∷ drop (suc c) xs) ≡ xs
unfolding last_comma
at_comma [] c h = absurd (ground arith)
at_comma (x ∷ xs) c h = elim (Option-cases (last_comma xs)) [
  | inr (i, e) ↦
      let same : suc i ≡ c = ground arith in
      subst (λ k. take k (x ∷ xs) ++ (0x2C ∷ drop (suc k) (x ∷ xs)) ≡ x ∷ xs) same
        (ap (◌∷◌ x) (at_comma xs i e))
  | inl e ↦
      let here : x ≡ 0x2C = ground arith in
      let same : 0 ≡ c = ground arith in
      subst (λ k. take k (x ∷ xs) ++ (0x2C ∷ drop (suc k) (x ∷ xs)) ≡ x ∷ xs) same
        (ap (λ y. y ∷ xs) (sym here))
]

pub two_bytes : (b : List ℕ) → 5 ≤ length b → byte_at b 0 ∷ byte_at b 1 ∷ drop 2 b ≡ b
two_bytes [] h = absurd (omega arith)
two_bytes (x ∷ []) h = absurd (omega arith)
two_bytes (x ∷ y ∷ b) h = refl
