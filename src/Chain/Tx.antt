-- ===== src/Chain/Tx.antt =====
-- Transactions as bytes: parse_tx and idx_tx_parse of src/chain.c. The arrays of inputs and outputs
-- are lists; where they are stored is not modelled. The hash of sha256.c is a parameter.
pub mod Wire
pub mod Layout
use namespace_indexer.Common.{
  ℕ, zero, suc, ◌+◌, ◌-◌, Bool, true, false, not, ◌&&◌, ◌||◌, List, [], ◌∷◌, Option, none, some,
  ltb, leb, ◌==◌, if◌then◌else◌, length, take, le_write,
}
use namespace_indexer.Engine.Name.{byte_at}
use namespace_indexer.Chain.Cursor.{Parser, ◌>>=◌, ◌>>◌, pure, check, cur_take, cur_le, cur_varint}

pub record IdxIn : Type 0 where
  pub prevout : List ℕ
  pub scriptsig : List ℕ

-- `value` is the bit pattern of an `int64_t`.
pub record IdxOut : Type 0 where
  pub value : ℕ
  pub spk : List ℕ
  pub vout : ℕ

pub record IdxTx : Type 0 where
  pub raw : List ℕ
  pub txid : ℕ
  pub ins : List IdxIn
  pub outs : List IdxOut

abbrev pub max_count : ℕ
max_count = 100000

-- The SegWit marker, two bytes 00 01.
unfoldable pub is_segwit : List ℕ → Bool
is_segwit bytes = leb 2 (length bytes) && byte_at bytes 0 == 0 && byte_at bytes 1 == 1

unfoldable pub no_segwit : Parser (Unit {0})
unfolding is_segwit
no_segwit bytes = if is_segwit bytes then none else some (tt, bytes)

unfoldable pub read_in : Parser IdxIn
unfolding cur_take cur_varint cur_le
read_in = do
  prevout ← cur_take 36
  slen ← cur_varint
  ss ← cur_take slen
  cur_le 4
  pure (record { prevout = prevout; scriptsig = ss })

unfoldable pub read_ins : ℕ → Parser (List IdxIn)
unfolding read_in
read_ins zero = pure []
read_ins (suc n) = do i ← read_in; rest ← read_ins n; pure (i ∷ rest)

unfoldable pub read_out : ℕ → Parser IdxOut
unfolding cur_take cur_varint cur_le
read_out i = do
  v ← cur_le 8
  slen ← cur_varint
  spk ← cur_take slen
  pure (record { value = v; spk = spk; vout = i })

unfoldable pub read_outs : ℕ → ℕ → Parser (List IdxOut)
unfolding read_out
read_outs zero i = pure []
read_outs (suc n) i = do o ← read_out i; rest ← read_outs n (suc i); pure (o ∷ rest)

unfoldable pub read_body : Parser (List IdxIn × List IdxOut)
unfolding no_segwit read_ins read_outs
read_body = do
  cur_le 4
  no_segwit
  vin ← cur_varint
  check (not (vin == 0 || ltb max_count vin))
  ins ← read_ins vin
  vout ← cur_varint
  check (not (ltb max_count vout))
  outs ← read_outs vout 0
  cur_le 4
  pure (ins, outs)

module _ (sha256 : List ℕ → ℕ) where
  unfoldable pub sha256d : List ℕ → ℕ
  unfolding le_write
  sha256d bytes = sha256 (le_write 32 (sha256 bytes))

  -- The bytes that were read are the transaction's own.
  unfoldable pub parse_tx : Parser IdxTx
  unfolding read_body sha256d
  parse_tx bytes = elim (read_body bytes) [
    | none ↦ none
    | some ((ins, outs), rest) ↦
        let raw = take (length bytes - length rest) bytes in
        some (record { raw = raw; txid = sha256d raw; ins = ins; outs = outs }, rest)
  ]

  unfoldable pub idx_tx_parse : List ℕ → Option IdxTx
  unfolding parse_tx
  idx_tx_parse bytes = elim (parse_tx bytes) [
    | none ↦ none
    | some (tx, rest) ↦ if length rest == 0 then some tx else none
  ]
