-- ===== src/Chain/Hex/Back.antt =====
-- Text read back as the bytes it was written from: src/chain.c.
use namespace_indexer.Common.{
  ℕ, ◌+◌, ◌*◌, ◌/◌, ◌%◌, ◌<◌, ◌≡◌, refl, ap, ◌∙◌, List, [], ◌∷◌, some, ◌==◌, length, arith, All,
}
use mathlib.Core.List.{reverse, reverse_aux, reverse-reverse}
use namespace_indexer.Engine.Codec.Layout.{Byte, guard-true}
use namespace_indexer.Chain.Hex.{
  hex_digit, hexnib, write_hex, read_hex, idx_hash_to_hex, idx_hex_to_hash,
}

hexnib-hex_digit : (n : ℕ) → n < 16 → hexnib (hex_digit n) ≡ some n
unfolding hexnib hex_digit
hexnib-hex_digit n h = ground arith

read_hex_step :
    (c d hi lo : ℕ) (hex bs : List ℕ)
    → hexnib c ≡ some hi
    → hexnib d ≡ some lo
    → read_hex hex ≡ some bs
    → read_hex (c ∷ d ∷ hex) ≡ some ((hi * 16 + lo) ∷ bs)
unfolding read_hex
read_hex_step c d hi lo hex bs h k l = rw (h, k, l, read_hex) refl

pub read_hex-write_hex : (bs : List ℕ) → All Byte bs → read_hex (write_hex bs) ≡ some bs
unfolding write_hex
read_hex-write_hex [] h = unfold read_hex in refl
read_hex-write_hex (b ∷ bs) h =
    let byte = h.0 in
    let whole : b / 16 * 16 + b % 16 ≡ b = omega arith in
    read_hex_step (hex_digit (b / 16)) (hex_digit (b % 16)) (b / 16) (b % 16) (write_hex bs) bs
      (hexnib-hex_digit (b / 16) (omega arith)) (hexnib-hex_digit (b % 16) (omega arith))
      (read_hex-write_hex bs h.1)
    ∙ ap (λ x. some (x ∷ bs)) whole

length-write_hex : (bs : List ℕ) → length (write_hex bs) ≡ 2 * length bs
unfolding write_hex
length-write_hex [] = omega arith
length-write_hex (b ∷ bs) = let rest = length-write_hex bs in omega arith

length-reverse_aux : (xs ys : List ℕ) → length (reverse_aux xs ys) ≡ length xs + length ys
length-reverse_aux [] ys = omega arith
length-reverse_aux (x ∷ xs) ys = let rest = length-reverse_aux xs (x ∷ ys) in omega arith

All-reverse_aux : (xs ys : List ℕ) → All Byte xs → All Byte ys → All Byte (reverse_aux xs ys)
All-reverse_aux [] ys h k = k
All-reverse_aux (x ∷ xs) ys h k = All-reverse_aux xs (x ∷ ys) h.1 (h.0, k)

-- The text of a hash of 32 bytes is read back as the hash.
pub idx_hex_to_hash-idx_hash_to_hex :
    (h : List ℕ) → All Byte h → length h ≡ 32 → idx_hex_to_hash (idx_hash_to_hex h) ≡ some h
unfolding idx_hex_to_hash idx_hash_to_hex
idx_hex_to_hash-idx_hash_to_hex h bytes size =
    let text = length-write_hex (reverse h) in
    let turned = length-reverse_aux h [] in
    guard-true (length (write_hex (reverse h)) == 64) _ (ground arith)
    ∙ rw (read_hex-write_hex (reverse h) (All-reverse_aux h [] bytes tt))
        (ap some (reverse-reverse h))
