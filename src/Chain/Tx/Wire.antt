-- ===== src/Chain/Tx/Wire.antt =====
-- The wire form of a transaction, read by src/chain.c.
use namespace_indexer.Common.{
  ℕ, suc, ◌^◌, ◌≤◌, ◌<◌, ◌≡◌, List, [], ◌∷◌, ◌++◌, All, length, le_write,
}
use namespace_indexer.Chain.Cursor.Reads.{write_varint}
use namespace_indexer.Chain.Tx.{IdxIn, IdxOut, max_count}

-- What the wire has beside the view: a version, a sequence for each input, a lock time.
pub record WireIn : Type 0 where
  pub view : IdxIn
  pub sequence : ℕ

pub record WireTx : Type 0 where
  pub version : ℕ
  pub ins : List WireIn
  pub outs : List IdxOut
  pub locktime : ℕ

unfoldable pub write_in : WireIn → List ℕ
write_in i =
    i.view.prevout
    ++ (write_varint (length i.view.scriptsig)
        ++ (i.view.scriptsig ++ (le_write 4 i.sequence ++ [])))

unfoldable pub write_ins : List WireIn → List ℕ
unfolding write_in
write_ins [] = []
write_ins (i ∷ is) = write_in i ++ (write_ins is ++ [])

unfoldable pub write_out : IdxOut → List ℕ
write_out o = le_write 8 o.value ++ (write_varint (length o.spk) ++ (o.spk ++ []))

unfoldable pub write_outs : List IdxOut → List ℕ
unfolding write_out
write_outs [] = []
write_outs (o ∷ os) = write_out o ++ (write_outs os ++ [])

unfoldable pub serialize : WireTx → List ℕ
unfolding write_ins write_outs
serialize t =
    le_write 4 t.version
    ++ (write_varint (length t.ins)
        ++ (write_ins t.ins
            ++ (write_varint (length t.outs)
                ++ (write_outs t.outs ++ (le_write 4 t.locktime ++ [])))))

abbrev pub views : List WireIn → List IdxIn
views [] = []
views (i ∷ is) = i.view ∷ views is

-- The fields fit their widths, and each output has its index.
pub record InFits (i : WireIn) : Type 0 where
  pub outpoint : length i.view.prevout ≡ 36
  pub script : length i.view.scriptsig < 2 ^ 64
  pub sequence : i.sequence < 2 ^ 32

abbrev pub OutsFit : ℕ → List IdxOut → Type 0
OutsFit i [] = Unit {0}
OutsFit i (o ∷ os) =
    ((o.value < 2 ^ 64) × (length o.spk < 2 ^ 64) × (o.vout ≡ i)) × OutsFit (suc i) os

pub record TxFits (t : WireTx) : Type 0 where
  pub version : t.version < 2 ^ 32
  pub some_in : 1 ≤ length t.ins
  pub few_ins : length t.ins ≤ max_count
  pub ins : All InFits t.ins
  pub few_outs : length t.outs ≤ max_count
  pub outs : OutsFit 0 t.outs
  pub locktime : t.locktime < 2 ^ 32
