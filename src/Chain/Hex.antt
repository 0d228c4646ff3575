-- ===== src/Chain/Hex.antt =====
-- Hashes and bytes as text: idx_hash_to_hex, idx_hex_to_hash and idx_hex_to_bytes of src/chain.c.
-- A string is the list of its characters.
pub mod Back
use namespace_indexer.Common.{
  ℕ, ◌+◌, ◌-◌, ◌*◌, ◌/◌, ◌%◌, Bool, true, false, not, ◌&&◌, List, [], ◌∷◌, Option, none, some, ltb,
  leb, ◌==◌, if◌then◌else◌, ◌>>=◌, ◌>>◌, guard, length,
}
use mathlib.Core.List.{reverse}

-- A digit of the table `H`.
unfoldable pub hex_digit : ℕ → ℕ
hex_digit n = if ltb n 10 then b'0' + n else b'a' + (n - 10)

unfoldable pub hexnib : ℕ → Option ℕ
hexnib c =
    if leb b'0' c && leb c b'9'
    then some (c - b'0')
    else if leb b'a' c && leb c b'f'
    then some (c - b'a' + 10)
    else if leb b'A' c && leb c b'F'
    then some (c - b'A' + 10)
    else none

unfoldable pub write_hex : List ℕ → List ℕ
unfolding hex_digit
write_hex [] = []
write_hex (b ∷ bs) = hex_digit (b / 16) ∷ hex_digit (b % 16) ∷ write_hex bs

-- The last byte of the hash comes first.
unfoldable pub idx_hash_to_hex : List ℕ → List ℕ
unfolding write_hex
idx_hash_to_hex h = write_hex (reverse h)

-- The loop over pairs of digits.
unfoldable pub read_hex : List ℕ → Option (List ℕ)
unfolding hexnib
read_hex [] = some []
read_hex (c ∷ []) = none
read_hex (c ∷ d ∷ hex) = do
  hi ← hexnib c
  lo ← hexnib d
  rest ← read_hex hex
  some ((hi * 16 + lo) ∷ rest)

unfoldable pub idx_hex_to_hash : List ℕ → Option (List ℕ)
unfolding read_hex
idx_hex_to_hash hex = do guard (length hex == 64); bytes ← read_hex hex; some (reverse bytes)

unfoldable pub idx_hex_to_bytes : List ℕ → ℕ → Option (List ℕ)
unfolding read_hex
idx_hex_to_bytes hex out_max = do
  guard (length hex % 2 == 0)
  guard (not (ltb out_max (length hex / 2)))
  read_hex hex
