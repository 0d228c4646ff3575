-- ===== src/Engine/Authority/Walk.antt =====
-- A plain owned name through the walk of a transaction over its carriers (fold.c).
use namespace_indexer.Common.{
  ℕ, zero, suc, ◌≡◌, ◌≢◌, refl, ◌∙◌, sym, subst, true, false, not, ◌&&◌, List, [], ◌∷◌, Option,
  none, some, ltb, ◌==◌, if-elim, arith, All, bytes_eq, OnSome, OnSome-guard, OnSome-bind,
  OnSome-or_else, or_else, get_elem?,
}
use namespace_indexer.Engine.Types.{
  SmAction, SmInput, SmCarrier, SmCarKind, SmTx, SmNameRow, SmState, SmTxCtx, is_owned,
}
use namespace_indexer.Engine.Name.{name_valid}
use namespace_indexer.Engine.Table.{find_name, put_row, find_scratch}
use namespace_indexer.Engine.Table.Laws.{find_name-put_row_ne}
use namespace_indexer.Engine.Trade.{op_trade}
use namespace_indexer.Engine.Fold.{
  Walk, act_as, op_as, op_commit, dispatch, run_action, walk_one, walk_carriers, start_ctx,
  apply_tx, keep_ctx,
}
use namespace_indexer.Engine.Invariant.{Inv}
use namespace_indexer.Engine.Invariant.Chain.{PriceFits, WalkOk, walk_one-Ok, act_as-mtp}
use namespace_indexer.Engine.Authority.{Untouched}
use namespace_indexer.Engine.Authority.Handlers
use namespace_indexer.Engine.Authority.Dealings

-- The input does not sign for the owner of the row.
abbrev pub Stranger : SmNameRow → SmInput → Type 0
Stranger r i = i.sighash_all ≡ true → r.owner ≢ i.h160

get_elem?-All {ℓ κ} :
    {A : Type ℓ} (P : A → Type κ) (xs : List A) (i : ℕ) (x : A)
    → All P xs
    → get_elem? xs i ≡ some x
    → P x
get_elem?-All P [] i x a h = absurd (ground arith)
get_elem?-All P (y ∷ ys) zero x a h = subst P (ground arith) a.0
get_elem?-All P (y ∷ ys) (suc i) x a h = get_elem?-All P ys i x a.1 h

module _ (n : List ℕ) (r : SmNameRow) (own : is_owned r.st ≡ true) (tx : SmTx)
    (strangers : All (Stranger r) tx.inputs) where
  -- The acting identity, if there is one, is not the owner.
  abbrev ForeignActor : SmTxCtx → Type 0
  ForeignActor cx = cx.actor_valid ≡ true → r.owner ≢ cx.actor

  abbrev WalkUntouched : Walk → Type 0
  WalkUntouched w = Untouched n r w.0 × ForeignActor w.1

  act_as-Foreign : (j : ℕ) (cx : SmTxCtx) → ForeignActor (act_as (get_elem? tx.inputs j) cx)
  act_as-Foreign j cx = pointed (get_elem? tx.inputs j) refl
    where
      pointed : (i : Option SmInput) → get_elem? tx.inputs j ≡ i → ForeignActor (act_as i cx)
      pointed none e = unfold act_as in λ h. absurd (cc)
      pointed (some i) e =
          let stranger : Stranger r i = get_elem?-All (Stranger r) tx.inputs j i strangers e in
          unfold act_as in
          if-elim ForeignActor i.sighash_all _ _ (λ signed _. stranger signed) (λ _ h. absurd (cc))

  module _ (s : SmState) (cx : SmTxCtx) (a : SmAction) (k : Untouched n r s) where
    swap_apart :
        (m : List ℕ) (q : SmNameRow) (i : SmInput)
        → find_name m s.names ≡ some q
        → (is_owned q.st && q.owner == i.h160) ≡ true
        → r.owner ≢ i.h160
        → bytes_eq q.name n ≡ false
    swap_apart m q i found owned d =
        Handlers.apart n r own s (record cx { actor = i.h160 }) a k d m q found
          (λ _. Handlers.owned_apart n r own s (record cx { actor = i.h160 }) a k d q owned)

    op_trade-Untouched : OnSome (Untouched n r) (op_trade s tx cx a)
    unfolding op_trade
    op_trade-Untouched =
        let P = Untouched n r in
        OnSome-bind P (get_elem? tx.inputs a.idx_a) _ λ pa input_a.
          OnSome-bind P (get_elem? tx.inputs a.idx_b) _ λ pb input_b.
            OnSome-guard P (not (a.idx_a == a.idx_b)) _ λ two.
              OnSome-guard P (pa.sighash_all && pb.sighash_all) _ λ signed.
                OnSome-guard P (name_valid a.name && name_valid a.name_b) _ λ valid.
                  OnSome-guard P (not (bytes_eq a.name a.name_b)) _ λ distinct.
                    OnSome-bind P (find_name a.name s.names) _ λ ra found_a.
                      OnSome-bind P (find_name a.name_b s.names) _ λ rb found_b.
                        OnSome-guard P (is_owned ra.st && ra.owner == pa.h160) _ λ own_a.
                          OnSome-guard P (is_owned rb.st && rb.owner == pb.h160) _ λ own_b.
                            let foreign_a =
                              get_elem?-All (Stranger r) tx.inputs a.idx_a pa strangers input_a
                                (ground arith) in
                            let foreign_b =
                              get_elem?-All (Stranger r) tx.inputs a.idx_b pb strangers input_b
                                (ground arith) in
                            let ra' : SmNameRow = record ra {
                              owner = pb.h160;
                              owner_type = pb.type;
                            } in
                            let rb' : SmNameRow = record rb {
                              owner = pa.h160;
                              owner_type = pa.type;
                            } in
                            record {
                              row =
                                  find_name-put_row_ne n rb' (put_row ra' s.names)
                                    (swap_apart a.name_b rb pb found_b own_b foreign_b)
                                  ∙ find_name-put_row_ne n ra' s.names
                                      (swap_apart a.name ra pa found_a own_a foreign_a)
                                  ∙ k.row;
                              settled = k.settled;
                            }

    kept :
        ForeignActor cx
        → (o : Option SmState) → OnSome (Untouched n r) o
        → WalkUntouched (keep_ctx cx s o)
    kept f o h = (OnSome-or_else (Untouched n r) s o k h, f)

    both :
        ForeignActor cx
        → (o : Option Walk)
        → OnSome
            (λ w. Untouched n r w.0 × ((w.1.actor ≡ cx.actor) × (w.1.actor_valid ≡ cx.actor_valid)))
            o
        → WalkUntouched (or_else (s, cx) o)
    both f none h = (k, f)
    both f (some w) h = (h.0, λ valid. subst (λ t. r.owner ≢ t) (sym h.1.0) (f (sym h.1.1 ∙ valid)))

    op_as-Untouched : WalkUntouched (op_as s tx cx a)
    unfolding op_as
    op_as-Untouched = (
      if-elim (Untouched n r) (act_as (get_elem? tx.inputs a.as_index) cx).actor_valid _ _ (λ _. k)
          (λ _. record { row = k.row; settled = k.settled }),
      act_as-Foreign a.as_index cx,
    )

    module _ (sha256 : List ℕ → ℕ) (now : ℕ) (v : Inv now s) where
      dispatch-Untouched :
          cx.actor_valid ≡ true → ForeignActor cx → WalkUntouched (dispatch sha256 s tx cx a)
      unfolding dispatch
      dispatch-Untouched valid f =
          let d = f valid in
          let W = WalkUntouched in
          let keep = kept f in
          if-elim W (a.op == 0x03) _ _
            (λ _. (unfold op_commit in record { row = k.row; settled = k.settled }, f))
            λ _.
              if-elim W (a.op == 0x04) _ _
                (λ _. keep _ (Dealings.op_claim-Untouched n r own sha256 s cx a k))
                λ _.
                  if-elim W (a.op == 0x05) _ _
                    (λ _. (Handlers.op_renew-Untouched n r own s cx a k d v.unique, f))
                    λ _.
                      if-elim W (a.op == 0x06) _ _
                        (λ _. keep _ (Handlers.op_transfer-Untouched n r own s cx a k d v.unique))
                        λ _.
                          if-elim W (a.op == 0x01) _ _
                            (λ _. keep _ (Handlers.op_renew_name-Untouched n r own s cx a k d))
                            λ _.
                              if-elim W (a.op == 0x02) _ _
                                (λ _.
                                  keep _ (Handlers.op_transfer_name-Untouched n r own s cx a k d))
                                λ _.
                                  if-elim W (a.op == 0x0B) _ _
                                    (λ _. keep _ (
                                      Handlers.op_release_name-Untouched n r own s cx a k d
                                        v.unique))
                                    λ _.
                                      if-elim W (a.op == 0x07) _ _
                                        (λ _.
                                          keep _ (Handlers.op_sell-Untouched n r own s cx a k d))
                                        λ _.
                                          if-elim W (a.op == 0x08) _ _
                                            (λ _.
                                              both f _ (
                                                Dealings.op_reserve-Untouched n r own s cx a k d
                                                  tx))
                                            λ _.
                                              if-elim W (a.op == 0x09) _ _
                                                (λ _. both f _ (
                                                  Dealings.op_settle-Untouched n r own s cx a k d
                                                    tx))
                                                λ _.
                                                  if-elim W (a.op == 0x0A) _ _
                                                    (λ _. keep _ (
                                                      Handlers.op_release-Untouched n r own s cx a k
                                                        d v.unique))
                                                    λ _.
                                                      if-elim W (a.op == 0x0C) _ _
                                                        (λ _. keep _ (
                                                          Handlers.op_sell_to-Untouched n r own s cx
                                                            a k d))
                                                        λ _.
                                                          if-elim W (a.op == 0x0D) _ _
                                                            (λ _. both f _ (
                                                            Dealings.op_pay-Untouched n r own s cx a
                                                            k d tx))
                                                            λ _. (k, f)

      run_action-Untouched : ForeignActor cx → WalkUntouched (run_action sha256 s tx cx a)
      unfolding run_action
      run_action-Untouched f =
          let W = WalkUntouched in
          if-elim W (ltb s.cur_height s.activation_height) _ _ (λ _. (k, f))
            λ _.
              if-elim W (a.op == 0x0E) _ _ (λ _. op_as-Untouched)
                λ _.
                  if-elim W (a.op == 0x0F) _ _ (λ _. kept f _ op_trade-Untouched)
                    λ _.
                      if-elim W cx.actor_valid _ _ (λ valid. dispatch-Untouched valid f) λ _. (k, f)

  module _ (sha256 : List ℕ → ℕ) (now : ℕ) where
    walk_one-Untouched :
        (c : SmCarrier) (s : SmState) (cx : SmTxCtx)
        → Inv now s
        → Untouched n r s
        → ForeignActor cx
        → WalkUntouched (walk_one sha256 tx c s cx)
    unfolding walk_one
    walk_one-Untouched c s cx v k f =
        elim c.kind
          as (λ t. WalkUntouched (elim t as (λ _. Walk) [
            | SmCarKind.action ↦ run_action sha256 s tx cx c.act
            | SmCarKind.ignore ↦ (s, cx)
          ])) [
            | SmCarKind.action ↦ run_action-Untouched s cx c.act k sha256 now v f
            | SmCarKind.ignore ↦ (k, f)
          ]

    walk_carriers-Untouched :
        (cs : List SmCarrier) (s : SmState) (cx : SmTxCtx)
        → All PriceFits cs
        → Inv now s
        → cx.mtp ≡ now
        → Untouched n r s
        → ForeignActor cx
        → Untouched n r (walk_carriers sha256 tx cs s cx)
    unfolding walk_carriers
    walk_carriers-Untouched [] s cx p v e k f = k
    walk_carriers-Untouched (c ∷ cs) s cx p v e k f =
        let cx' : SmTxCtx = record cx { car_value = c.value; car_vout = c.vout } in
        let ok : WalkOk now sha256 (walk_one sha256 tx c s cx') =
          walk_one-Ok now sha256 tx c s cx' p.0 v e in
        let same : WalkUntouched (walk_one sha256 tx c s cx') = walk_one-Untouched c s cx' v k f in
        walk_carriers-Untouched cs _ _ p.1 ok.0 ok.1 same.0 same.1

    -- Where the invariant holds, a transaction leaves the row of a name exactly as it was, if the
    -- name is plain owned, was not minted in this very block, and its owner is no input that signs
    -- SIGHASH_ALL: not the owner, not the lease and not the market fields change.
    pub apply_tx-Untouched :
        (s : SmState)
        → All PriceFits tx.carriers
        → Inv now s
        → find_name n s.names ≡ some r
        → find_scratch n s.claimsc ≡ none
        → find_name n (apply_tx sha256 s tx).names ≡ some r
    unfolding apply_tx start_ctx
    apply_tx-Untouched s p v there settled =
        let end =
          walk_carriers-Untouched tx.carriers s (start_ctx s tx) p v
            (act_as-mtp (get_elem? tx.inputs 0) _ ∙ v.clock)
            (record { row = there; settled = settled }) (act_as-Foreign 0 _) in
        end.row
