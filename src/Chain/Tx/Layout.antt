-- ===== src/Chain/Tx/Layout.antt =====
-- Reading the wire form of a transaction back: src/chain.c.
use namespace_indexer.Common.{
  ℕ, suc, ◌-◌, ◌^◌, ◌≤◌, ◌<◌, ◌≡◌, refl, ap, sym, subst, ◌∙◌, not, ◌||◌, List, [], ◌∷◌, ◌++◌, some,
  ltb, ◌==◌, arith, Bool-cases, inl, inr, All, length, take, length-append, take-append, le_write,
}
use mathlib.Core.List.{append-nil}
use namespace_indexer.Chain.Cursor.{Parser, ◌>>◌, pure, cur_take, cur_le, cur_varint}
use namespace_indexer.Chain.Cursor.Reads.{
  Reads, Reads-bind, Reads-check, bind_step, cur_take-Reads, cur_le-Reads, write_varint,
  cur_varint-Reads,
}
use namespace_indexer.Chain.Tx.Wire.{
  WireIn, WireTx, write_in, write_ins, write_out, write_outs, serialize, views, InFits, OutsFit,
  TxFits,
}
use namespace_indexer.Chain.Tx.{
  IdxIn, IdxOut, IdxTx, max_count, is_segwit, no_segwit, read_in, read_ins, read_out, read_outs,
  read_body, sha256d, parse_tx, idx_tx_parse,
}

pure-Reads : {A : Type 0} (a : A) → Reads (pure a) a []
pure-Reads a rest = refl

read_in-Reads : (i : WireIn) → InFits i → Reads read_in i.view (write_in i)
unfolding read_in write_in
read_in-Reads i f =
    Reads-bind (cur_take 36) _ i.view.prevout i.view i.view.prevout _
      (cur_take-Reads 36 i.view.prevout f.outpoint)
      (Reads-bind cur_varint _ (length i.view.scriptsig) i.view
        (write_varint (length i.view.scriptsig)) _
        (cur_varint-Reads (length i.view.scriptsig) f.script)
        (Reads-bind (cur_take (length i.view.scriptsig)) _ i.view.scriptsig i.view i.view.scriptsig
          _ (cur_take-Reads (length i.view.scriptsig) i.view.scriptsig refl)
          (Reads-bind (cur_le 4) _ i.sequence i.view (le_write 4 i.sequence) []
            (cur_le-Reads 4 i.sequence f.sequence) (pure-Reads i.view))))

read_ins-Reads :
    (is : List WireIn) → All InFits is → Reads (read_ins (length is)) (views is) (write_ins is)
unfolding read_ins write_ins
read_ins-Reads [] f = pure-Reads []
read_ins-Reads (i ∷ is) f =
    Reads-bind read_in _ i.view (views (i ∷ is)) (write_in i) _ (read_in-Reads i f.0) (
      Reads-bind (read_ins (length is)) _ (views is) (views (i ∷ is)) (write_ins is) []
        (read_ins-Reads is f.1) (pure-Reads (views (i ∷ is))))

read_out-Reads :
    (i : ℕ) (o : IdxOut)
    → o.value < 2 ^ 64
    → length o.spk < 2 ^ 64
    → o.vout ≡ i
    → Reads (read_out i) o (write_out o)
unfolding read_out write_out
read_out-Reads i o value script same =
    subst (λ k. Reads (read_out k) o (write_out o)) same
      (Reads-bind (cur_le 8) _ o.value o (le_write 8 o.value) _ (cur_le-Reads 8 o.value value) (
        Reads-bind cur_varint _ (length o.spk) o (write_varint (length o.spk)) _
          (cur_varint-Reads (length o.spk) script)
          (Reads-bind (cur_take (length o.spk)) _ o.spk o o.spk []
            (cur_take-Reads (length o.spk) o.spk refl) (pure-Reads o))))

read_outs-Reads :
    (i : ℕ) (os : List IdxOut) → OutsFit i os → Reads (read_outs (length os) i) os (write_outs os)
unfolding read_outs write_outs
read_outs-Reads i [] f = pure-Reads []
read_outs-Reads i (o ∷ os) f =
    Reads-bind (read_out i) _ o (o ∷ os) (write_out o) _
      (let (value, script, same) = f.0 in read_out-Reads i o value script same)
      (Reads-bind (read_outs (length os) (suc i)) _ os (o ∷ os) (write_outs os) []
        (read_outs-Reads (suc i) os f.1) (pure-Reads (o ∷ os)))

varint_head : (n : ℕ) → 1 ≤ n → (x : ℕ) × (t : List ℕ) × (write_varint n ≡ x ∷ t) × (1 ≤ x)
unfolding write_varint
varint_head n h = elim (Bool-cases (ltb n 0xFD)) [
  | inl direct ↦ (n, [], rw direct refl, h)
  | inr n1 ↦ elim (Bool-cases (ltb n 0x10000)) [
    | inl two ↦ (0xFD, le_write 2 n, rw (n1, two) refl, omega arith)
    | inr n2 ↦ elim (Bool-cases (ltb n 0x100000000)) [
      | inl four ↦ (0xFE, le_write 4 n, rw (n1, n2, four) refl, omega arith)
      | inr n4 ↦ (0xFF, le_write 8 n, rw (n1, n2, n4) refl, omega arith)
    ]
  ]
]

unmarked : (x : ℕ) (xs : List ℕ) → 1 ≤ x → no_segwit (x ∷ xs) ≡ some (tt, x ∷ xs)
unfolding no_segwit is_segwit
unmarked x xs h = ground arith

-- A count of one at least is no SegWit marker.
no_segwit-Reads :
    {B : Type 0} (n : ℕ) (k : Parser B) (b : B) (ys : List ℕ)
    → 1 ≤ n
    → Reads k b (write_varint n ++ ys)
    → Reads (no_segwit >> k) b (write_varint n ++ ys)
no_segwit-Reads n k b ys h r rest =
    let (x, t, e, pos) = varint_head n h in
    let all = (write_varint n ++ ys) ++ rest in
    let passed : no_segwit all ≡ some (tt, all) =
      subst (λ w. no_segwit ((w ++ ys) ++ rest) ≡ some (tt, (w ++ ys) ++ rest)) (sym e)
        (unmarked x ((t ++ ys) ++ rest) pos) in
    bind_step no_segwit (λ _. k) all all tt passed ∙ r rest

parse_step :
    (sha256 : List ℕ → ℕ) (bytes rest : List ℕ) (ins : List IdxIn) (outs : List IdxOut)
    → read_body bytes ≡ some ((ins, outs), rest)
    → parse_tx sha256 bytes ≡ (
        let raw = take (length bytes - length rest) bytes in
        some (record { raw = raw; txid = sha256d sha256 raw; ins = ins; outs = outs }, rest))
unfolding parse_tx sha256d
parse_step sha256 bytes rest ins outs h = rw (h, parse_tx) refl

parse_whole :
    (sha256 : List ℕ → ℕ) (bytes : List ℕ) (tx : IdxTx)
    → parse_tx sha256 bytes ≡ some (tx, [])
    → idx_tx_parse sha256 bytes ≡ some tx
unfolding idx_tx_parse
parse_whole sha256 bytes tx h = rw (h, idx_tx_parse) refl

module _ (t : WireTx) (f : TxFits t) where
  read_body-Reads : Reads read_body (views t.ins, t.outs) (serialize t)
  unfolding read_body serialize
  read_body-Reads =
      let v : List IdxIn × List IdxOut = (views t.ins, t.outs) in
      Reads-bind (cur_le 4) _ t.version v (le_write 4 t.version) _
        (cur_le-Reads 4 t.version f.version)
        (no_segwit-Reads (length t.ins) _ v _ f.some_in (
          Reads-bind cur_varint _ (length t.ins) v (write_varint (length t.ins)) _
            (cur_varint-Reads (length t.ins) (let few = f.few_ins in omega arith))
            (Reads-check (not (length t.ins == 0 || ltb max_count (length t.ins))) _ v _
              (let few = f.few_ins in let one = f.some_in in ground arith)
              (Reads-bind (read_ins (length t.ins)) _ (views t.ins) v (write_ins t.ins) _
                (read_ins-Reads t.ins f.ins)
                (Reads-bind cur_varint _ (length t.outs) v (write_varint (length t.outs)) _
                  (cur_varint-Reads (length t.outs) (let few = f.few_outs in omega arith))
                  (Reads-check (not (ltb max_count (length t.outs))) _ v _
                    (let few = f.few_outs in ground arith)
                    (Reads-bind (read_outs (length t.outs) 0) _ t.outs v (write_outs t.outs) _
                      (read_outs-Reads 0 t.outs f.outs)
                      (Reads-bind (cur_le 4) _ t.locktime v (le_write 4 t.locktime) []
                        (cur_le-Reads 4 t.locktime f.locktime) (pure-Reads v)))))))))

  -- The view of a transaction, over its own bytes.
  abbrev pub view_of : (List ℕ → ℕ) → IdxTx
  view_of sha256 = record {
    raw = serialize t;
    txid = sha256d sha256 (serialize t);
    ins = views t.ins;
    outs = t.outs;
  }

  -- In front of any bytes, a transaction whose fields fit their widths is read as itself: its
  -- inputs, its outputs with their indices, its own bytes and their hash; and what follows is left.
  pub parse_tx-Reads :
      (sha256 : List ℕ → ℕ) → Reads (parse_tx sha256) (view_of sha256) (serialize t)
  parse_tx-Reads sha256 rest =
      parse_step sha256 (serialize t ++ rest) rest (views t.ins) t.outs (read_body-Reads rest)
      ∙ ap
          (λ raw. some (
            record { raw = raw; txid = sha256d sha256 raw; ins = views t.ins; outs = t.outs },
            rest,
          ))
          own
    where
      own : take (length (serialize t ++ rest) - length rest) (serialize t ++ rest) ≡ serialize t
      own =
          let size : length (serialize t ++ rest) - length rest ≡ length (serialize t) =
            omega (arith, length-append (serialize t) rest) in
          ap (λ k. take k (serialize t ++ rest)) size ∙ take-append (serialize t) rest

  -- Parsing the bytes of a transaction whose fields fit their widths gives its view.
  pub idx_tx_parse-serialize :
      (sha256 : List ℕ → ℕ) → idx_tx_parse sha256 (serialize t) ≡ some (view_of sha256)
  idx_tx_parse-serialize sha256 = parse_whole sha256 (serialize t) (view_of sha256) (
      subst (λ xs. parse_tx sha256 xs ≡ some (view_of sha256, [])) (append-nil (serialize t))
        (parse_tx-Reads sha256 []))
