-- ===== src/Chain/Block.antt =====
-- Blocks as bytes: tx_skip, auxpow_skip and idx_parse_block of src/chain.c. The hash of sha256.c is
-- a parameter. A 32-byte hash is the number of its bytes, least significant first.
pub mod Layout
pub mod Header
pub mod Written
use namespace_indexer.Common.{
  ℕ, zero, suc, ◌+◌, ◌-◌, ◌*◌, ◌/◌, ◌%◌, ◌^◌, Bool, true, false, not, ◌&&◌, ◌||◌, List, [], ◌∷◌,
  Option, none, some, ltb, leb, ◌==◌, if◌then◌else◌, length, take, drop, le_read, le_write,
}
use namespace_indexer.Chain.Cursor.{Parser, ◌>>=◌, ◌>>◌, pure, check, cur_take, cur_le, cur_varint}
use namespace_indexer.Chain.Tx.{IdxIn, IdxOut, IdxTx, max_count, is_segwit, sha256d, parse_tx}
use namespace_indexer.Chain.Merkle.{merkle_root}

-- A loop that reads the same thing n times.
unfoldable pub repeat : ℕ → Parser (Unit {0}) → Parser (Unit {0})
repeat zero m = pure tt
repeat (suc n) m = do m; repeat n m

-- Bytes behind their length.
unfoldable pub skip_bytes : Parser (Unit {0})
unfolding cur_take cur_varint
skip_bytes = do s ← cur_varint; cur_take s; pure tt

unfoldable pub skip_in : Parser (Unit {0})
unfolding cur_take cur_le skip_bytes
skip_in = do cur_take 36; skip_bytes; cur_le 4; pure tt

unfoldable pub skip_out : Parser (Unit {0})
unfolding cur_le skip_bytes
skip_out = do cur_le 8; skip_bytes

unfoldable pub skip_witness : Parser (Unit {0})
unfolding cur_varint repeat skip_bytes
skip_witness = do items ← cur_varint; check (not (ltb 1000 items)); repeat items skip_bytes

-- The SegWit marker, stepped over where it stands.
unfoldable pub skip_marker : Parser Bool
unfolding is_segwit
skip_marker bytes = if is_segwit bytes then some (true, drop 2 bytes) else some (false, bytes)

unfoldable pub tx_skip : Parser (Unit {0})
unfolding skip_marker skip_in skip_out skip_witness
tx_skip = do
  cur_le 4
  segwit ← skip_marker
  vin ← cur_varint
  check (not (vin == 0 || ltb max_count vin))
  repeat vin skip_in
  vout ← cur_varint
  check (not (ltb max_count vout))
  repeat vout skip_out
  (if segwit then repeat vin skip_witness else pure tt)
  cur_le 4
  pure tt

-- A Merkle branch of 64 hashes at most.
unfoldable pub skip_branch : Parser (Unit {0})
unfolding cur_take cur_varint
skip_branch = do n ← cur_varint; check (not (ltb 64 n)); cur_take (n * 32); pure tt

unfoldable pub auxpow_skip : Parser (Unit {0})
unfolding tx_skip skip_branch
auxpow_skip = do
  tx_skip
  cur_take 32
  skip_branch
  cur_le 4
  skip_branch
  cur_le 4
  cur_take 80
  pure tt

-- `coinbase_out_total` is the bit pattern of an `int64_t`.
pub record IdxBlockMeta : Type 0 where
  pub version : ℕ
  pub prev : ℕ
  pub merkle : ℕ
  pub time : ℕ
  pub bits : ℕ
  pub nonce : ℕ
  pub block_hash : ℕ
  pub block_bytes : ℕ
  pub coinbase_out_total : ℕ
  pub n_tx : ℕ
  pub merkle_ok : Bool

-- The number in the n bytes of the header at the offset.
unfoldable pub field : ℕ → ℕ → List ℕ → ℕ
field offset n hdr = le_read (take n (drop offset hdr))

unfoldable pub has_auxpow : List ℕ → Bool
unfolding field
has_auxpow hdr = field 0 4 hdr / 0x100 % 2 == 1

-- The header and the count of transactions, out of a block of that many bytes.
unfoldable pub read_start : ℕ → Parser (List ℕ × ℕ)
unfolding cur_take cur_varint has_auxpow auxpow_skip
read_start len = do
  hdr ← cur_take 80
  (if has_auxpow hdr then auxpow_skip else pure tt)
  ntx ← cur_varint
  check (not (ltb 1000000 ntx || ltb (len / 60 + 1) ntx))
  pure (hdr, ntx)

unfoldable pub total_raw : List IdxTx → ℕ
total_raw [] = 0
total_raw (tx ∷ txs) = length tx.raw + total_raw txs

unfoldable pub total_out : List IdxOut → ℕ
total_out [] = 0
total_out (o ∷ os) = (o.value + total_out os) % 2 ^ 64

unfoldable pub coinbase_total : List IdxTx → ℕ
unfolding total_out
coinbase_total [] = 0
coinbase_total (tx ∷ txs) = total_out tx.outs

abbrev pub txids : List IdxTx → List ℕ
txids [] = []
txids (tx ∷ txs) = tx.txid ∷ txids txs

-- What the parse gives: the transactions that `cb` saw, in their order, and the meta data unless
-- it failed.
pub record BlockParse : Type 0 where
  pub seen : List IdxTx
  pub meta : Option IdxBlockMeta

module _ (sha256 : List ℕ → ℕ) where
  -- The transactions up to the first one that does not parse, and the bytes that are left.
  unfoldable pub parse_txs : ℕ → List ℕ → List IdxTx × Option (List ℕ)
  unfolding parse_tx
  parse_txs zero bytes = ([], some bytes)
  parse_txs (suc n) bytes = elim (parse_tx sha256 bytes) [
    | none ↦ ([], none)
    | some (tx, rest) ↦
        let more : List IdxTx × Option (List ℕ) = parse_txs n rest in (tx ∷ more.0, more.1)
  ]

  -- The root of the hashes is the one of the header, and no pair of hashes is supplied twice.
  unfoldable pub merkle_matches : ℕ → List ℕ → Bool
  unfolding merkle_root
  merkle_matches merkle ids = elim (merkle_root sha256 ids) [
    | none ↦ false
    | some (root, mutated) ↦ not mutated && root == merkle
  ]

  unfoldable pub block_meta : List ℕ → List IdxTx → IdxBlockMeta
  unfolding field sha256d total_raw coinbase_total merkle_matches
  block_meta hdr txs = record {
    version = field 0 4 hdr;
    prev = field 4 32 hdr;
    merkle = field 36 32 hdr;
    time = field 68 4 hdr;
    bits = field 72 4 hdr;
    nonce = field 76 4 hdr;
    block_hash = sha256d sha256 hdr;
    block_bytes = total_raw txs;
    coinbase_out_total = coinbase_total txs;
    n_tx = length txs;
    merkle_ok = merkle_matches (field 36 32 hdr) (txids txs);
  }

  unfoldable pub parsed : List ℕ → List IdxTx × Option (List ℕ) → BlockParse
  unfolding block_meta
  parsed hdr (seen, none) = record { seen = seen; meta = none }
  parsed hdr (seen, some rest) = record { seen = seen; meta = some (block_meta hdr seen) }

  unfoldable pub idx_parse_block : List ℕ → BlockParse
  unfolding read_start parse_txs parsed
  idx_parse_block bytes = elim (read_start (length bytes) bytes) [
    | none ↦ record { seen = []; meta = none }
    | some ((hdr, ntx), rest) ↦ parsed hdr (parse_txs ntx rest)
  ]
