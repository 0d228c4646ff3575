-- ===== src/Engine/Codec.antt =====
-- The bytes of actions: protocol/impls/c/src/decode.c. A payload that is no action is `none`; the
-- fields of an ignored carrier are not read, and stay zero here.
pub mod Layout
pub mod Canonical
use namespace_indexer.Common.{
  ℕ, zero, suc, ◌+◌, ◌-◌, Bool, true, false, not, ◌&&◌, ◌||◌, List, [], ◌∷◌, ◌++◌, Option, none,
  some, ltb, leb, ◌==◌, if◌then◌else◌, ◌>>=◌, ◌>>◌, guard, length, take, drop, le_read, le_write,
}
use namespace_indexer.Engine.Types.{SmAction, SmCarrier, SmCarKind}
use namespace_indexer.Engine.Name.{name_valid, byte_at}

abbrev pub body_max : ℕ
body_max = 10000 - 4 - 4

abbrev pub flags_max : ℕ
flags_max = body_max - 5

abbrev pub flags_xfer_max : ℕ
flags_xfer_max = flags_max - 20

-- `memset` and the opcode.
abbrev pub zero_action : ℕ → SmAction
zero_action op = record {
  op = op;
  name = [];
  name_b = [];
  commitment = 0;
  salt = [];
  addr = 0;
  price = 0;
  window = 0;
  has_anchor = false;
  anchor = 0;
  flags = [];
  as_index = 0;
  idx_a = 0;
  idx_b = 0;
}

-- `rd32`, `rd64`, `rd5` and the copies of fixed length.
abbrev pub read_at : ℕ → ℕ → List ℕ → ℕ
read_at i n b = le_read (take n (drop i b))

unfoldable pub decode_commit : ℕ → List ℕ → Option SmAction
unfolding le_read
decode_commit op b = do
  guard (length b == 32)
  some (record (zero_action op) { commitment = read_at 0 32 b })

unfoldable pub decode_claim : ℕ → List ℕ → Option SmAction
unfolding name_valid
decode_claim op b = do
  guard (not (ltb (length b) 33 || ltb 64 (length b)))
  guard (name_valid (drop 32 b))
  some (record (zero_action op) { salt = take 32 b; name = drop 32 b })

unfoldable pub decode_renew : ℕ → List ℕ → Option SmAction
unfolding le_read
decode_renew op b =
    if length b == 0
    then some (zero_action op)
    else if length b == 5
    then some (record (zero_action op) { has_anchor = true; anchor = read_at 0 5 b })
    else if leb 6 (length b) && leb (length b) body_max
    then some
        (record (zero_action op) { has_anchor = true; anchor = read_at 0 5 b; flags = drop 5 b })
    else none

unfoldable pub decode_transfer : ℕ → List ℕ → Option SmAction
unfolding le_read
decode_transfer op b =
    if length b == 20
    then some (record (zero_action op) { addr = read_at 0 20 b })
    else if leb 26 (length b) && leb (length b) body_max
    then some (record (zero_action op) {
      addr = read_at 0 20 b;
      has_anchor = true;
      anchor = read_at 20 5 b;
      flags = drop 25 b;
    })
    else none

unfoldable pub decode_sell : ℕ → List ℕ → Option SmAction
unfolding le_read name_valid
decode_sell op b = do
  guard (not (ltb (length b) 13 || ltb 44 (length b)))
  guard (name_valid (drop 12 b))
  some (record (zero_action op) { price = read_at 0 8 b; window = read_at 8 4 b; name = drop 12 b })

-- RENEW_NAME, RELEASE_NAME, RESERVE, SETTLE and PAY.
unfoldable pub decode_name : ℕ → List ℕ → Option SmAction
unfolding name_valid
decode_name op b = do
  guard (not (ltb (length b) 1 || ltb 32 (length b)))
  guard (name_valid b)
  some (record (zero_action op) { name = b })

unfoldable pub decode_transfer_name : ℕ → List ℕ → Option SmAction
unfolding le_read name_valid
decode_transfer_name op b = do
  guard (not (ltb (length b) 21 || ltb 52 (length b)))
  guard (name_valid (drop 20 b))
  some (record (zero_action op) { addr = read_at 0 20 b; name = drop 20 b })

unfoldable pub decode_release : ℕ → List ℕ → Option SmAction
unfolding le_read
decode_release op b = do
  guard (not (ltb (length b) 6 || ltb body_max (length b)))
  some (record (zero_action op) { has_anchor = true; anchor = read_at 0 5 b; flags = drop 5 b })

unfoldable pub decode_sell_to : ℕ → List ℕ → Option SmAction
unfolding le_read name_valid
decode_sell_to op b = do
  guard (not (ltb (length b) 29 || ltb 60 (length b)))
  guard (name_valid (drop 28 b))
  some (record (zero_action op) { price = read_at 0 8 b; addr = read_at 8 20 b; name = drop 28 b })

unfoldable pub decode_as : ℕ → List ℕ → Option SmAction
decode_as op b = do guard (length b == 1); some (record (zero_action op) { as_index = byte_at b 0 })

-- The number of commas, and the index of the last one.
unfoldable pub count_commas : List ℕ → ℕ
count_commas [] = 0
count_commas (x ∷ xs) = (if x == 0x2C then 1 else 0) + count_commas xs

unfoldable pub last_comma : List ℕ → Option ℕ
last_comma [] = none
last_comma (x ∷ xs) = elim (last_comma xs) [
  | some i ↦ some (suc i)
  | none ↦ if x == 0x2C then some 0 else none
]

unfoldable pub decode_trade : ℕ → List ℕ → Option SmAction
unfolding name_valid count_commas last_comma
decode_trade op b = do
  guard (not (ltb (length b) 5))
  guard (count_commas (drop 2 b) == 1)
  comma ← last_comma (drop 2 b)
  guard (name_valid (take comma (drop 2 b)))
  guard (name_valid (drop (suc comma) (drop 2 b)))
  some (record (zero_action op) {
    idx_a = byte_at b 0;
    idx_b = byte_at b 1;
    name = take comma (drop 2 b);
    name_b = drop (suc comma) (drop 2 b);
  })

abbrev pub is_name_op : ℕ → Bool
is_name_op op = op == 0x01 || op == 0x0B || op == 0x08 || op == 0x09 || op == 0x0D

unfoldable pub decode_action : ℕ → List ℕ → Option SmAction
unfolding decode_commit decode_claim decode_renew decode_transfer decode_sell decode_name
    decode_transfer_name decode_release decode_sell_to decode_as decode_trade
decode_action op b =
    if op == 0x03
    then decode_commit op b
    else if op == 0x04
    then decode_claim op b
    else if op == 0x05
    then decode_renew op b
    else if op == 0x06
    then decode_transfer op b
    else if op == 0x07
    then decode_sell op b
    else if is_name_op op
    then decode_name op b
    else if op == 0x02
    then decode_transfer_name op b
    else if op == 0x0A
    then decode_release op b
    else if op == 0x0C
    then decode_sell_to op b
    else if op == 0x0E
    then decode_as op b
    else if op == 0x0F
    then decode_trade op b
    else none

-- The prefix of an action, and an opcode in range.
unfoldable pub recognise : List ℕ → Option SmAction
unfolding decode_action
recognise (x ∷ y ∷ z ∷ op ∷ b) =
    if x == 0xFF && y == 0x50 && z == 0x4E
    then (if leb 0x01 op && leb op 0x0F then decode_action op b else none)
    else none
recognise _ = none

unfoldable pub decode_payload : List ℕ → SmCarrier → SmCarrier
unfolding recognise
decode_payload p car = elim (recognise p) [
  | none ↦ record car { kind = SmCarKind.ignore; act = zero_action 0 }
  | some a ↦ record car { kind = SmCarKind.action; act = a }
]

-- `name_len` is from 1 to 32.
abbrev pub fits : List ℕ → Bool
fits name = not (ltb (length name) 1 || ltb 32 (length name))

unfoldable pub encode_body : SmAction → Option (List ℕ)
encode_body a =
    if a.op == 0x03
    then some (le_write 32 a.commitment)
    else if a.op == 0x04
    then guard (fits a.name) >> some (a.salt ++ a.name)
    else if a.op == 0x05
    then if not a.has_anchor && length a.flags == 0
      then some []
      else if a.has_anchor && length a.flags == 0
      then some (le_write 5 a.anchor)
      else if a.has_anchor && leb 1 (length a.flags) && leb (length a.flags) flags_max
      then some (le_write 5 a.anchor ++ a.flags)
      else none
    else if a.op == 0x06
    then if not a.has_anchor
      then some (le_write 20 a.addr)
      else if leb 1 (length a.flags) && leb (length a.flags) flags_xfer_max
      then some (le_write 20 a.addr ++ (le_write 5 a.anchor ++ a.flags))
      else none
    else if a.op == 0x07
    then guard (fits a.name) >> some (le_write 8 a.price ++ (le_write 4 a.window ++ a.name))
    else if is_name_op a.op
    then guard (fits a.name) >> some a.name
    else if a.op == 0x02
    then guard (fits a.name) >> some (le_write 20 a.addr ++ a.name)
    else if a.op == 0x0A
    then guard (not (ltb (length a.flags) 1 || ltb flags_max (length a.flags)))
      >> some (le_write 5 a.anchor ++ a.flags)
    else if a.op == 0x0C
    then guard (fits a.name) >> some (le_write 8 a.price ++ (le_write 20 a.addr ++ a.name))
    else if a.op == 0x0E
    then some (a.as_index ∷ [])
    else if a.op == 0x0F
    then guard (fits a.name && fits a.name_b)
      >> some (a.idx_a ∷ a.idx_b ∷ (a.name ++ (0x2C ∷ a.name_b)))
    else none

unfoldable pub encode_action : SmAction → Option (List ℕ)
unfolding encode_body
encode_action a = encode_body a >>= λ b. some (0xFF ∷ 0x50 ∷ 0x4E ∷ a.op ∷ b)
