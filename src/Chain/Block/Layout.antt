-- ===== src/Chain/Block/Layout.antt =====
-- Reading the wire form of a block back: src/chain.c.
use namespace_indexer.Common.{
  ℕ, suc, ◌+◌, ◌/◌, ◌≤◌, ◌≡◌, refl, ap, subst, ◌∙◌, false, List, [], ◌∷◌, ◌++◌, some, arith, All,
  length,
}
use mathlib.Core.List.{append_assoc, append-nil}
use namespace_indexer.Chain.Cursor.{pure, cur_take, cur_varint}
use namespace_indexer.Chain.Cursor.Reads.{
  Reads, Reads-bind, Reads-check, cur_take-Reads, write_varint, cur_varint-Reads,
}
use namespace_indexer.Chain.Tx.{IdxTx, parse_tx}
use namespace_indexer.Chain.Tx.Wire.{WireTx, serialize, TxFits}
use namespace_indexer.Chain.Tx.Layout.{view_of, parse_tx-Reads}
use namespace_indexer.Chain.Block.{
  has_auxpow, read_start, parse_txs, block_meta, parsed, idx_parse_block,
}

unfoldable pub write_txs : List WireTx → List ℕ
write_txs [] = []
write_txs (t ∷ ts) = serialize t ++ write_txs ts

-- A header of a block without a merged-mining proof, the count and the transactions.
unfoldable pub write_block : List ℕ → List WireTx → List ℕ
unfolding write_varint write_txs
write_block hdr ts = hdr ++ (write_varint (length ts) ++ write_txs ts)

pub record RawFits (hdr : List ℕ) (ts : List WireTx) : Type 0 where
  pub header : length hdr ≡ 80
  pub plain : has_auxpow hdr ≡ false
  pub few : length ts ≤ 1000000
  pub dense : length ts ≤ length (write_block hdr ts) / 60 + 1
  pub txs : All TxFits ts

module _ (sha256 : List ℕ → ℕ) where
  abbrev pub views_of : (ts : List WireTx) → All TxFits ts → List IdxTx
  views_of [] f = []
  views_of (t ∷ ts) f = view_of t f.0 sha256 ∷ views_of ts f.1

  parse_txs_step :
      (n : ℕ) (bytes rest : List ℕ) (tx : IdxTx)
      → parse_tx sha256 bytes ≡ some (tx, rest)
      → parse_txs sha256 (suc n) bytes
        ≡ (tx ∷ (parse_txs sha256 n rest).0, (parse_txs sha256 n rest).1)
  unfolding parse_txs
  parse_txs_step n bytes rest tx h = rw (h, parse_txs) refl

  parse_txs-write_txs :
      (ts : List WireTx) (f : All TxFits ts) (rest : List ℕ)
      → parse_txs sha256 (length ts) (write_txs ts ++ rest) ≡ (views_of ts f, some rest)
  unfolding write_txs
  parse_txs-write_txs [] f rest = unfold parse_txs in refl
  parse_txs-write_txs (t ∷ ts) f rest =
      let after = write_txs ts ++ rest in
      let split = append_assoc (serialize t) (write_txs ts) rest in
      let now : parse_tx sha256 ((serialize t ++ write_txs ts) ++ rest)
          ≡ some (view_of t f.0 sha256, after) =
        rw split (parse_tx-Reads t f.0 sha256 after) in
      parse_txs_step (length ts) _ after (view_of t f.0 sha256) now
      ∙ ap (λ r. (view_of t f.0 sha256 ∷ r.0, r.1)) (parse_txs-write_txs ts f.1 rest)

  pub length-views_of : (ts : List WireTx) (f : All TxFits ts) → length (views_of ts f) ≡ length ts
  length-views_of [] f = refl
  length-views_of (t ∷ ts) f = ap suc (length-views_of ts f.1)

  parse_done :
      (bytes hdr rest end : List ℕ) (n : ℕ) (txs : List IdxTx)
      → read_start (length bytes) bytes ≡ some ((hdr, n), rest)
      → parse_txs sha256 n rest ≡ (txs, some end)
      → idx_parse_block sha256 bytes
        ≡ record { seen = txs; meta = some (block_meta sha256 hdr txs) }
  unfolding idx_parse_block parsed
  parse_done bytes hdr rest end n txs h k = rw (h, idx_parse_block) (ap (parsed sha256 hdr) k)

  module _ (hdr : List ℕ) (ts : List WireTx) (f : RawFits hdr ts) where
    read_start-Reads :
        Reads
          (read_start (length (write_block hdr ts)))
          (hdr, length ts)
          (hdr ++ (write_varint (length ts) ++ []))
    unfolding read_start
    read_start-Reads =
        let few = f.few in
        let dense = f.dense in
        let plain = f.plain in
        Reads-bind (cur_take 80) _ hdr (hdr, length ts) hdr _ (cur_take-Reads 80 hdr f.header)
          (rw plain (
            Reads-bind cur_varint _ (length ts) (hdr, length ts) (write_varint (length ts)) []
              (cur_varint-Reads (length ts) (omega arith))
              (Reads-check _ (pure (hdr, length ts)) (hdr, length ts) []
                (let total = length (write_block hdr ts) in ground arith) (λ rest. refl))))

    -- The transactions of a block are seen in their order.
    pub parse_written : idx_parse_block sha256 (write_block hdr ts) ≡ record {
      seen = views_of ts f.txs;
      meta = some (block_meta sha256 hdr (views_of ts f.txs));
    }
    unfolding write_block
    parse_written =
        parse_done (write_block hdr ts) hdr (write_txs ts) [] (length ts) (views_of ts f.txs) start
          all
      where
        start :
            read_start (length (write_block hdr ts)) (write_block hdr ts)
            ≡ some ((hdr, length ts), write_txs ts)
        start =
            subst
              (λ xs.
                read_start (length (write_block hdr ts)) xs ≡ some ((hdr, length ts), write_txs ts))
              (append_assoc hdr (write_varint (length ts) ++ []) (write_txs ts)
                ∙ ap (hdr ++◌) (append_assoc (write_varint (length ts)) [] (write_txs ts)))
              (read_start-Reads (write_txs ts))

        all : parse_txs sha256 (length ts) (write_txs ts) ≡ (views_of ts f.txs, some [])
        all =
            subst (λ xs. parse_txs sha256 (length ts) xs ≡ (views_of ts f.txs, some []))
              (append-nil (write_txs ts)) (parse_txs-write_txs ts f.txs [])
