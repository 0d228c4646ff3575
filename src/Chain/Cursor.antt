-- ===== src/Chain/Cursor.antt =====
-- The cursor of src/chain.c: the bytes that are left. A read past the end is `none`. In the source
-- it sets `err`, the readers after it give zeros, and each parser returns 0 at its next test of
-- `err`, with nothing of its value kept.
pub mod Reads
use namespace_indexer.Common.{
  ℕ, Bool, List, [], ◌∷◌, Option, none, some, ltb, ◌==◌, if◌then◌else◌, length, take, drop, le_read,
}

abbrev pub Parser : Type 0 → Type 0
Parser A = List ℕ → Option (A × List ℕ)

infixl 5 ◌>>=◌ ◌>>◌
abbrev pub ◌>>=◌ : {A B : Type 0} → Parser A → (A → Parser B) → Parser B
◌>>=◌ m f bytes = elim (m bytes) [ none ↦ none | some (a, rest) ↦ f a rest ]

abbrev pub ◌>>◌ : {A B : Type 0} → Parser A → Parser B → Parser B
m >> k = m >>= λ _. k

abbrev pub pure : {A : Type 0} → A → Parser A
pure a bytes = some (a, bytes)

-- `return 0` unless the test holds.
abbrev pub check : Bool → Parser (Unit {0})
check b bytes = if b then some (tt, bytes) else none

-- The bounds check is the subtraction form of the source.
unfoldable pub cur_take : ℕ → Parser (List ℕ)
cur_take n bytes = if ltb (length bytes) n then none else some (take n bytes, drop n bytes)

-- `cur_u8`, `cur_u16`, `cur_u32` and `cur_i64` at 1, 2, 4 and 8 bytes. The signed number of
-- `cur_i64` is its bit pattern.
unfoldable pub cur_le : ℕ → Parser ℕ
unfolding cur_take le_read
cur_le n = do bytes ← cur_take n; pure (le_read bytes)

-- The number behind the first byte of a varint.
unfoldable pub cur_wide : ℕ → Parser ℕ
unfolding cur_le
cur_wide b =
    if ltb b 0xFD
    then pure b
    else if b == 0xFD
    then cur_le 2
    else if b == 0xFE
    then cur_le 4
    else cur_le 8

unfoldable pub cur_varint : Parser ℕ
unfolding cur_wide
cur_varint = cur_le 1 >>= cur_wide
