-- ===== src/Chain/Block/Written.antt =====
-- A block as written, read back with its meta data by src/chain.c.
use namespace_indexer.Common.{
  ℕ, ◌+◌, ◌/◌, ◌%◌, ◌^◌, ◌≤◌, ◌≡◌, refl, ap, ◌∙◌, ◌↔◌, true, false, not, ◌&&◌, List, [], ◌∷◌, some,
  ◌==◌, arith, All, Option-cases, inl, inr, length, length-append, le_write,
}
use mathlib.Core.Path.{ap₂}
use namespace_indexer.Chain.Tx.{IdxOut, sha256d}
use namespace_indexer.Chain.Tx.Wire.{WireTx, serialize, TxFits}
use namespace_indexer.Chain.Merkle.{merkle_root}
use namespace_indexer.Chain.Block.{
  IdxBlockMeta, total_raw, total_out, coinbase_total, txids, merkle_matches, block_meta,
  idx_parse_block,
}
use namespace_indexer.Chain.Block.Layout.{
  write_txs, write_block, RawFits, views_of, length-views_of, parse_written,
}
use namespace_indexer.Chain.Block.Header.{
  WireHeader, write_header, HeaderFits, length-write_header, field_version, field_prev,
  field_merkle, field_time, field_bits, field_nonce, has_auxpow-write_header,
}

-- The parser takes a million transactions at most, and one for each 60 bytes of the block.
pub record BlockFits (h : WireHeader) (ts : List WireTx) : Type 0 where
  pub header : HeaderFits h
  pub few : length ts ≤ 1000000
  pub dense : length ts ≤ length (write_block (write_header h) ts) / 60 + 1
  pub txs : All TxFits ts

abbrev plain_sum : List IdxOut → ℕ
plain_sum [] = 0
plain_sum (o ∷ os) = o.value + plain_sum os

-- The amounts of the coinbase, which is the first transaction.
abbrev pub coinbase_sum : List WireTx → ℕ
coinbase_sum [] = 0
coinbase_sum (t ∷ ts) = plain_sum t.outs

module _ (sha256 : List ℕ → ℕ) where
  abbrev pub twice : List ℕ → ℕ
  twice bytes = sha256 (le_write 32 (sha256 bytes))

  -- The txids, out of the bytes of the transactions.
  abbrev pub ids_of : List WireTx → List ℕ
  ids_of [] = []
  ids_of (t ∷ ts) = twice (serialize t) ∷ ids_of ts

  -- The meta data of a written block: the fields of the header, the hash of its bytes, the size of
  -- the transactions, the amounts of the first one, their number, and whether the header has the
  -- Merkle root of their txids, found without a pair of equal hashes.
  pub record Describes (h : WireHeader) (ts : List WireTx) (m : IdxBlockMeta) : Type 0 where
    pub version : m.version ≡ h.version
    pub prev : m.prev ≡ h.prev
    pub merkle : m.merkle ≡ h.merkle
    pub time : m.time ≡ h.time
    pub bits : m.bits ≡ h.bits
    pub nonce : m.nonce ≡ h.nonce
    pub block_hash : m.block_hash ≡ twice (write_header h)
    pub block_bytes : m.block_bytes ≡ length (write_txs ts)
    pub coinbase_out_total : m.coinbase_out_total ≡ coinbase_sum ts % 2 ^ 64
    pub n_tx : m.n_tx ≡ length ts
    pub merkle_ok : (m.merkle_ok ≡ true) ↔ (merkle_root sha256 (ids_of ts) ≡ some (h.merkle, false))

  total_raw-views_of :
      (ts : List WireTx) (f : All TxFits ts)
      → total_raw (views_of sha256 ts f) ≡ length (write_txs ts)
  unfolding total_raw write_txs
  total_raw-views_of [] f = refl
  total_raw-views_of (t ∷ ts) f =
      omega (arith, total_raw-views_of ts f.1, length-append (serialize t) (write_txs ts))

  total_out_plain : (os : List IdxOut) → total_out os ≡ plain_sum os % 2 ^ 64
  unfolding total_out
  total_out_plain [] = refl
  total_out_plain (o ∷ os) = omega (arith, total_out_plain os)

  coinbase_total-views_of :
      (ts : List WireTx) (f : All TxFits ts)
      → coinbase_total (views_of sha256 ts f) ≡ coinbase_sum ts % 2 ^ 64
  unfolding coinbase_total
  coinbase_total-views_of [] f = refl
  coinbase_total-views_of (t ∷ ts) f = total_out_plain t.outs

  txids-views_of : (ts : List WireTx) (f : All TxFits ts) → txids (views_of sha256 ts f) ≡ ids_of ts
  unfolding sha256d
  txids-views_of [] f = refl
  txids-views_of (t ∷ ts) f = ap (◌∷◌ (twice (serialize t))) (txids-views_of ts f.1)

  merkle_matches_iff :
      (merkle : ℕ) (ids : List ℕ)
      → (merkle_matches sha256 merkle ids ≡ true) ↔ (merkle_root sha256 ids ≡ some (merkle, false))
  unfolding merkle_matches
  merkle_matches_iff merkle ids = elim (Option-cases (merkle_root sha256 ids)) [
    | inl e ↦
        let v : merkle_matches sha256 merkle ids ≡ false = rw (e, merkle_matches) refl in
        (λ h. absurd (ground arith), λ h. absurd (ground arith))
    | inr ((root, mutated), e) ↦
        let v : merkle_matches sha256 merkle ids ≡ (not mutated && root == merkle) =
          rw (e, merkle_matches) refl in
        (
          λ h.
              let r : root ≡ merkle = ground arith in
              let m : mutated ≡ false = ground arith in e ∙ ap₂ (λ x y. some (x, y)) r m,
          λ h. ground arith,
        )
  ]

  module _ (h : WireHeader) (ts : List WireTx) (f : BlockFits h ts) where
    raw_fits : RawFits (write_header h) ts
    raw_fits = record {
      header = length-write_header h f.header;
      plain = has_auxpow-write_header h f.header;
      few = f.few;
      dense = f.dense;
      txs = f.txs;
    }

    described : Describes h ts (block_meta sha256 (write_header h) (views_of sha256 ts f.txs))
    unfolding block_meta sha256d
    described = record {
      version = field_version h f.header;
      prev = field_prev h f.header;
      merkle = field_merkle h f.header;
      time = field_time h f.header;
      bits = field_bits h f.header;
      nonce = field_nonce h f.header;
      block_hash = refl;
      block_bytes = total_raw-views_of ts f.txs;
      coinbase_out_total = coinbase_total-views_of ts f.txs;
      n_tx = length-views_of sha256 ts f.txs;
      merkle_ok =
          rw (field_merkle h f.header, txids-views_of ts f.txs)
            (merkle_matches_iff h.merkle (ids_of ts));
    }

    -- Parsing the bytes of a block without a merged-mining proof, which has no more transactions
    -- than the parser allows for its size, and whose fields fit their widths, gives the callback
    -- its transactions in their order, and meta data with the six fields of the header as written,
    -- the double hash of the header, the size and number of the transactions, the sum of the first
    -- one's amounts modulo 2 ^ 64, and a Merkle flag that is set exactly when the header has the
    -- Merkle root of the txids and no pair of hashes on the way is supplied twice.
    pub idx_parse_block-write_block :
        (m : IdxBlockMeta) × (idx_parse_block sha256 (write_block (write_header h) ts)
          ≡ record { seen = views_of sha256 ts f.txs; meta = some m })
        × Describes h ts m
    unfolding raw_fits
    idx_parse_block-write_block = (
      block_meta sha256 (write_header h) (views_of sha256 ts f.txs),
      parse_written sha256 (write_header h) ts raw_fits,
      described,
    )
