-- ===== src/Chain/Cursor/Reads.antt =====
-- What a reader of src/chain.c takes off the front of the bytes.
use namespace_indexer.Common.{
  ℕ, ◌^◌, ◌<◌, ◌≡◌, refl, ap, sym, subst, Bool-cases, inl, inr, ◌∙◌, Bool, true, false, List, [],
  ◌∷◌, ◌++◌, some, ltb, if◌then◌else◌, arith, length, length-append, take-append, drop-append,
  le_write, length-le_write, le_read-le_write,
}
use mathlib.Core.List.{append_assoc}
use namespace_indexer.Chain.Cursor.{
  Parser, ◌>>=◌, ◌>>◌, check, cur_take, cur_le, cur_wide, cur_varint,
}

-- The parser reads the bytes as the value, whatever follows them.
abbrev pub Reads : {A : Type 0} → Parser A → A → List ℕ → Type 0
Reads m a xs = (rest : List ℕ) → m (xs ++ rest) ≡ some (a, rest)

pub bind_step :
    {A B : Type 0} (m : Parser A) (f : A → Parser B) (bytes rest : List ℕ) (a : A)
    → m bytes ≡ some (a, rest)
    → (m >>= f) bytes ≡ f a rest
bind_step m f bytes rest a h = rw (h, ◌>>=◌) refl

pub Reads-bind :
    {A B : Type 0} (m : Parser A) (f : A → Parser B) (a : A) (b : B) (xs ys : List ℕ)
    → Reads m a xs
    → Reads (f a) b ys
    → Reads (m >>= f) b (xs ++ ys)
Reads-bind m f a b xs ys h k rest =
    rw append_assoc (bind_step m f (xs ++ (ys ++ rest)) (ys ++ rest) a (h (ys ++ rest)) ∙ k rest)

pub Reads-check :
    {B : Type 0} (t : Bool) (k : Parser B) (b : B) (ys : List ℕ)
    → t ≡ true
    → Reads k b ys
    → Reads (check t >> k) b ys
Reads-check t k b ys e h rest = rw e (h rest)

pub cur_take-Reads : (n : ℕ) (xs : List ℕ) → length xs ≡ n → Reads (cur_take n) xs xs
unfolding cur_take
cur_take-Reads n xs e rest = rw (← e) (
    rw
      (let long : ltb (length (xs ++ rest)) (length xs) ≡ false =
          ground (arith, length-append xs rest) in
        long)
      (rw (take-append, drop-append) refl))

pub cur_le-Reads : (n v : ℕ) → v < 256 ^ n → Reads (cur_le n) v (le_write n v)
unfolding cur_le
cur_le-Reads n v small rest =
    bind_step (cur_take n) _ (le_write n v ++ rest) rest (le_write n v)
      (cur_take-Reads n (le_write n v) (length-le_write n v) rest)
    ∙ ap (λ t. some (t, rest)) (le_read-le_write n v small)

-- The shortest form of a count or a length.
unfoldable pub write_varint : ℕ → List ℕ
unfolding le_write
write_varint v =
    if ltb v 0xFD
    then v ∷ []
    else if ltb v 0x10000
    then 0xFD ∷ le_write 2 v
    else if ltb v 0x100000000
    then 0xFE ∷ le_write 4 v
    else 0xFF ∷ le_write 8 v

byte-Reads : (b : ℕ) → b < 256 → Reads (cur_le 1) b (b ∷ [])
byte-Reads b small =
    let low : le_write 1 b ≡ b ∷ [] = unfold le_write in ap (λ t. t ∷ []) (omega arith) in
    subst (λ xs. Reads (cur_le 1) b xs) low (cur_le-Reads 1 b (omega arith))

marked :
    (b n v : ℕ)
    → b < 256
    → cur_wide b ≡ cur_le n
    → v < 256 ^ n
    → Reads cur_varint v (b ∷ le_write n v)
unfolding cur_varint
marked b n v byte e small =
    Reads-bind (cur_le 1) cur_wide b v (b ∷ []) (le_write n v) (byte-Reads b byte)
      (subst (λ m. Reads m v (le_write n v)) (sym e) (cur_le-Reads n v small))

pub cur_varint-Reads : (v : ℕ) → v < 2 ^ 64 → Reads cur_varint v (write_varint v)
unfolding cur_varint cur_wide write_varint
cur_varint-Reads v small = elim (Bool-cases (ltb v 0xFD)) [
  | inl direct ↦ rw direct (
      Reads-bind (cur_le 1) cur_wide v v (v ∷ []) [] (byte-Reads v (ground arith))
        (λ rest. rw direct refl))
  | inr n1 ↦ elim (Bool-cases (ltb v 0x10000)) [
    | inl two ↦ rw (n1, two) (marked 0xFD 2 v (omega arith) refl (ground arith))
    | inr n2 ↦ elim (Bool-cases (ltb v 0x100000000)) [
      | inl four ↦ rw (n1, n2, four) (marked 0xFE 4 v (omega arith) refl (ground arith))
      | inr n4 ↦ rw (n1, n2, n4) (marked 0xFF 8 v (omega arith) refl small)
    ]
  ]
]
