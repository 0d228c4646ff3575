-- ===== src/Engine/Trade/Swap.antt =====
-- What a completed swap does: op_trade of protocol/impls/c/src/trade.c.
use namespace_indexer.Common.{
  ℕ, ◌≤◌, ◌≡◌, ◌≢◌, refl, sym, ◌∙◌, subst, true, not, ◌&&◌, List, some, ◌==◌, arith, bytes_eq,
  bytes_eq_iff, get_elem?, OnSome, OnSome-guard, OnSome-bind, OnSome-result,
}
use namespace_indexer.Engine.Types.{SmAction, SmInput, SmTx, SmNameRow, SmState, SmTxCtx, is_owned}
use namespace_indexer.Engine.Name.{name_valid}
use namespace_indexer.Engine.Table.{find_name, put_row, last_mutation}
use namespace_indexer.Engine.Table.Laws.{find_name-name, find_name-put_row, find_name-put_row_ne}
use namespace_indexer.Engine.Table.Bumps.{bumped_self, bumped_other}
use namespace_indexer.Engine.Trade.{op_trade}

-- The row after the swap: the other party's, with the lease and all else as it was.
abbrev pub conveyed : SmInput → SmNameRow → SmNameRow
conveyed to r = record r { owner = to.h160; owner_type = to.type }

module _ (s : SmState) (tx : SmTx) (cx : SmTxCtx) (a : SmAction) where
  -- A completed TRADE of the rows `ra` and `rb` of two names between two inputs.
  pub record Swapped (t : SmState) : Type 0 where
    pub pa : SmInput
    pub pb : SmInput
    pub ra : SmNameRow
    pub rb : SmNameRow
    pub inputs : (get_elem? tx.inputs a.idx_a ≡ some pa) × (get_elem? tx.inputs a.idx_b ≡ some pb)
    pub apart : (a.idx_a ≢ a.idx_b) × (a.name ≢ a.name_b)
    pub signed : (pa.sighash_all ≡ true) × (pb.sighash_all ≡ true)
    pub rows : (find_name a.name s.names ≡ some ra) × (find_name a.name_b s.names ≡ some rb)
    pub plain : (is_owned ra.st ≡ true) × (is_owned rb.st ≡ true)
    pub holders : (ra.owner ≡ pa.h160) × (rb.owner ≡ pb.h160)
    pub swapped :
        (find_name a.name t.names ≡ some (conveyed pb ra))
        × (find_name a.name_b t.names ≡ some (conveyed pa rb))
    pub others :
        (n : List ℕ) → n ≢ a.name → n ≢ a.name_b → find_name n t.names ≡ find_name n s.names
    pub bumped :
        (cx.height ≤ last_mutation pa.h160 t.muts) × (cx.height ≤ last_mutation pb.h160 t.muts)

  names_differ : (x y : List ℕ) → not (bytes_eq x y) ≡ true → x ≢ y
  names_differ x y h = ground (arith, bytes_eq_iff x y)

  -- A row written under its own name, and one written under another.
  hit :
      (n : List ℕ) (r q : SmNameRow) (rs : List SmNameRow)
      → r.name ≡ n
      → find_name n rs ≡ some q
      → find_name n (put_row r rs) ≡ some r
  hit n r q rs same found =
      find_name-put_row n r rs q (subst (λ m. find_name m rs ≡ some q) (sym same) found)
      ∙ rw ((bytes_eq_iff r.name n).1 same) refl

  miss :
      (n m : List ℕ) (r : SmNameRow) (rs : List SmNameRow)
      → r.name ≡ m
      → n ≢ m
      → find_name n (put_row r rs) ≡ find_name n rs
  miss n m r rs same d = find_name-put_row_ne n r rs (ground (arith, bytes_eq_iff r.name n))

  op_trade-cases : OnSome Swapped (op_trade s tx cx a)
  unfolding op_trade
  op_trade-cases = OnSome-bind Swapped (get_elem? tx.inputs a.idx_a) _ λ pa in_a.
      OnSome-bind Swapped (get_elem? tx.inputs a.idx_b) _ λ pb in_b.
        OnSome-guard Swapped (not (a.idx_a == a.idx_b)) _ λ apart.
          OnSome-guard Swapped (pa.sighash_all && pb.sighash_all) _ λ signed.
            OnSome-guard Swapped (name_valid a.name && name_valid a.name_b) _ λ valid.
              OnSome-guard Swapped (not (bytes_eq a.name a.name_b)) _ λ distinct.
                OnSome-bind Swapped (find_name a.name s.names) _ λ ra there_a.
                  OnSome-bind Swapped (find_name a.name_b s.names) _ λ rb there_b.
                    OnSome-guard Swapped (is_owned ra.st && ra.owner == pa.h160) _ λ held_a.
                      OnSome-guard Swapped (is_owned rb.st && rb.owner == pb.h160) _ λ held_b.
                        let name_a = find_name-name a.name s.names ra there_a in
                        let name_b = find_name-name a.name_b s.names rb there_b in
                        let d = names_differ a.name a.name_b distinct in
                        let ra' : SmNameRow = conveyed pb ra in
                        let rb' : SmNameRow = conveyed pa rb in
                        record {
                          pa = pa;
                          pb = pb;
                          ra = ra;
                          rb = rb;
                          inputs = (in_a, in_b);
                          apart = (ground arith, d);
                          signed = (ground arith, ground arith);
                          rows = (there_a, there_b);
                          plain = (ground arith, ground arith);
                          holders = (ground arith, ground arith);
                          swapped = (
                            miss a.name a.name_b rb' (put_row ra' s.names) name_b d
                                ∙ hit a.name ra' ra s.names name_a there_a,
                            hit a.name_b rb' rb (put_row ra' s.names) name_b (
                                miss a.name_b a.name ra' s.names name_a (λ e. d (sym e)) ∙ there_b),
                          );
                          others = λ n da db.
                              miss n a.name_b rb' (put_row ra' s.names) name_b db
                              ∙ miss n a.name ra' s.names name_a da;
                          bumped = (
                            bumped_other pa.h160 pb.h160 cx.height cx.height _
                                (bumped_self pa.h160 cx.height s.muts),
                            bumped_self pb.h160 cx.height _,
                          );
                        }

  -- A TRADE that goes through is between two different inputs that both sign SIGHASH_ALL, for two
  -- different names, each plain owned by its input's key. Both change hands in one step: each name
  -- has its old row, lease included, under the other party. Every other name is as before, and both
  -- parties' mutation heights reach the block.
  pub op_trade-Swapped : (t : SmState) → op_trade s tx cx a ≡ some t → Swapped t
  op_trade-Swapped t h = OnSome-result Swapped (op_trade s tx cx a) t op_trade-cases h
