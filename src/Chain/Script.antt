-- ===== src/Chain/Script.antt =====
-- Output scripts: idx_script_payee and idx_op_return_payload of src/chain.c.
pub mod Exact
use namespace_indexer.Common.{
  ℕ, ◌+◌, ◌*◌, ◌-◌, Bool, true, false, not, ◌&&◌, ◌||◌, List, [], ◌∷◌, ◌++◌, Option, none, some,
  ltb, leb, ◌==◌, if◌then◌else◌, ◌>>=◌, ◌>>◌, guard, length, take, drop, le_read,
}
use namespace_indexer.Engine.Name.{byte_at}

-- `SM_CARRIER_MAX`
abbrev pub carrier_max : ℕ
carrier_max = 10000 - 4

-- The hash and the type of a payee: 0 for P2PKH, 1 for P2SH.
unfoldable pub script_payee : List ℕ → Option (ℕ × ℕ)
unfolding le_read
script_payee spk =
    if length spk == 25
      && byte_at spk 0 == 0x76
      && byte_at spk 1 == 0xA9
      && byte_at spk 2 == 0x14
      && byte_at spk 23 == 0x88
      && byte_at spk 24 == 0xAC
    then some (le_read (take 20 (drop 3 spk)), 0)
    else if length spk == 23
        && byte_at spk 0 == 0xA9
        && byte_at spk 1 == 0x14
        && byte_at spk 22 == 0x87
    then some (le_read (take 20 (drop 2 spk)), 1)
    else none

-- One push of `len` bytes from `off` on, with nothing behind it.
unfoldable pub lone_push : ℕ → ℕ → List ℕ → Option (List ℕ)
lone_push len off spk = do
  guard (not (len == 0 || ltb carrier_max len))
  guard (off + len == length spk)
  some (take len (drop off spk))

-- OP_PUSHDATA1 and OP_PUSHDATA2 of a length that needs them.
unfoldable pub pushdata1 : List ℕ → Option (List ℕ)
unfolding lone_push
pushdata1 spk = do
  guard (not (leb (length spk) 2))
  guard (not (ltb (byte_at spk 2) 76))
  lone_push (byte_at spk 2) 3 spk

unfoldable pub pushdata2 : List ℕ → Option (List ℕ)
unfolding lone_push
pushdata2 spk = do
  guard (not (leb (length spk) 3))
  guard (not (ltb (byte_at spk 2 + 256 * byte_at spk 3) 256))
  lone_push (byte_at spk 2 + 256 * byte_at spk 3) 4 spk

-- The script behind its OP_RETURN.
unfoldable pub minimal_push : List ℕ → Option (List ℕ)
unfolding lone_push pushdata1 pushdata2
minimal_push spk =
    if leb (length spk) 1
    then some []
    else if leb 0x01 (byte_at spk 1) && leb (byte_at spk 1) 0x4B
    then lone_push (byte_at spk 1) 2 spk
    else if byte_at spk 1 == 0x4C
    then pushdata1 spk
    else if byte_at spk 1 == 0x4D
    then pushdata2 spk
    else none

unfoldable pub op_return_payload : List ℕ → Option (List ℕ)
unfolding minimal_push
op_return_payload spk = do
  guard (not (ltb (length spk) 1) && byte_at spk 0 == 0x6A)
  minimal_push spk
