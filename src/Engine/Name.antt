-- ===== src/Engine/Name.antt =====
-- The validity of a name, `sm_name_valid` of protocol/impls/c/src/state.c.
use namespace_indexer.Common.{
  ℕ, zero, ◌-◌, Bool, true, false, not, ◌&&◌, ◌||◌, List, [], ◌∷◌, none, some, ltb, leb, ◌==◌,
  if◌then◌else◌, length, get_elem?,
}
use namespace_indexer.Engine.Const.{name_max}

-- `name[i]`; the callers read within the length.
abbrev pub byte_at : List ℕ → ℕ → ℕ
byte_at name i = elim (get_elem? name i) [ none ↦ zero | some c ↦ c ]

unfoldable pub name_char : ℕ → Bool
name_char c = leb b'a' c && leb c b'z' || leb b'0' c && leb c b'9' || c == b'-'

unfoldable pub all_name_chars : List ℕ → Bool
unfolding name_char
all_name_chars [] = true
all_name_chars (c ∷ cs) = name_char c && all_name_chars cs

unfoldable pub name_valid : List ℕ → Bool
unfolding all_name_chars
name_valid name =
    let len = length name in
    if ltb len 1 || ltb name_max len
    then false
    else if not (all_name_chars name)
    then false
    else if byte_at name 0 == b'-' || byte_at name (len - 1) == b'-'
    then false
    else if leb 4 len && byte_at name 2 == b'-' && byte_at name 3 == b'-'
    then false
    else true
