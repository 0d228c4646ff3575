-- ===== src/Engine/Invariant/Chain.antt =====
-- The invariant through a carrier, a transaction, a block and a chain (fold.c and preblock.c).
use namespace_indexer.Common.{
  ℕ, ◌<◌, ◌≤◌, ◌≡◌, refl, sym, subst, ◌∙◌, List, [], ◌∷◌, Option, none, some, ltb, leb, ◌==◌,
  if-elim, arith, All, OnSome, OnSome-or_else, or_else, get_elem?, length, zero, suc,
}
use namespace_indexer.Engine.Const.{u64_mod}
use namespace_indexer.Engine.Types.{
  SmAction, SmInput, SmCarrier, SmCarKind, SmTx, SmNameRow, SmMut, SmState, SmTxCtx,
}
use namespace_indexer.Engine.Table.{find_name, last_first, new_state}
use namespace_indexer.Engine.Table.Laws.{
  Unique, Unique-last_first, All-last_first, length-last_first,
}
use namespace_indexer.Engine.Preblock.Lookup.{settle_row-name, swept_absent}
use namespace_indexer.Engine.Preblock.{sweep, settle_row, preblock, Swept}
use namespace_indexer.Engine.Fold.{
  Walk, Block, begin_block, act_as, op_as, op_commit, dispatch, run_action, walk_one, walk_carriers,
  start_ctx, apply_tx, apply_txs, fold_block, fold_chain, keep_ctx,
}
use namespace_indexer.Engine.Invariant.{RowOk, Inv}
use namespace_indexer.Engine.Invariant.Ops
use namespace_indexer.Engine.Invariant.Sets

-- The price of an action is a `uint64_t`.
abbrev pub PriceFits : SmCarrier → Type 0
PriceFits c = c.act.price < u64_mod

-- Time moves on and the transitions leave each row in order.
settle_row-RowOk :
    (old mtp : ℕ) (r : SmNameRow) → old ≤ mtp → RowOk old r → RowOk mtp (settle_row mtp r)
unfolding settle_row
settle_row-RowOk old mtp r h ok = ground arith

sweep-All :
    (old mtp fuel height : ℕ) (rs : List SmNameRow) (muts : List SmMut) (ev : List ℕ)
    → old ≤ mtp
    → length rs ≤ fuel
    → All (RowOk old) rs
    → All (RowOk mtp) (sweep fuel height mtp rs muts ev).rows
unfolding sweep
sweep-All old mtp zero height [] muts ev h f a = tt
sweep-All old mtp zero height (r ∷ rs) muts ev h f a = elim f [ ]
sweep-All old mtp (suc fuel) height [] muts ev h f a = tt
sweep-All old mtp (suc fuel) height (r ∷ rs) muts ev h f a =
    if-elim {A = Swept} (λ w. All (RowOk mtp) w.rows) (leb (settle_row mtp r).lease_expiry mtp) _ _
      (λ _.
        sweep-All old mtp fuel height (last_first rs) _ _ h (omega (arith, length-last_first rs))
          (All-last_first (RowOk old) rs a.1))
      (λ _. (
        settle_row-RowOk old mtp r h a.0,
        sweep-All old mtp fuel height rs muts ev h (omega arith) a.1,
      ))

sweep-Unique :
    (mtp fuel height : ℕ) (rs : List SmNameRow) (muts : List SmMut) (ev : List ℕ)
    → length rs ≤ fuel
    → Unique rs
    → Unique (sweep fuel height mtp rs muts ev).rows
unfolding sweep
sweep-Unique mtp zero height [] muts ev f u = tt
sweep-Unique mtp zero height (r ∷ rs) muts ev f u = elim f [ ]
sweep-Unique mtp (suc fuel) height [] muts ev f u = tt
sweep-Unique mtp (suc fuel) height (r ∷ rs) muts ev f u =
    if-elim {A = Swept} (λ w. Unique w.rows) (leb (settle_row mtp r).lease_expiry mtp) _ _
      (λ _.
        sweep-Unique mtp fuel height (last_first rs) _ _ (omega (arith, length-last_first rs))
          (Unique-last_first rs u.1))
      (λ _. (
        swept_absent (settle_row mtp r).name fuel height mtp rs muts ev (omega arith) u.1
            (subst (λ n. find_name n rs ≡ none) (sym (settle_row-name mtp r)) u.0),
        sweep-Unique mtp fuel height rs muts ev (omega arith) u.1,
      ))

pub begin_block-Inv :
    (old height mtp rate : ℕ) (s : SmState)
    → old ≤ mtp
    → Inv old s
    → Inv mtp (begin_block height mtp rate s)
unfolding begin_block preblock
begin_block-Inv old height mtp rate s h v = record {
  unique = sweep-Unique mtp (length s.names) height s.names s.muts s.ev (omega arith) v.unique;
  rows = sweep-All old mtp (length s.names) height s.names s.muts s.ev h (omega arith) v.rows;
  clock = refl;
}

pub act_as-mtp : (i : Option SmInput) (cx : SmTxCtx) → (act_as i cx).mtp ≡ cx.mtp
unfolding act_as
act_as-mtp i cx = ground arith

module _ (now : ℕ) (sha256 : List ℕ → ℕ) where
  abbrev pub WalkOk : Walk → Type 0
  WalkOk w = Inv now w.0 × (w.1.mtp ≡ now)

  module _ (s : SmState) (tx : SmTx) (cx : SmTxCtx) (a : SmAction) where
    kept :
        Inv now s
        → cx.mtp ≡ now
        → (o : Option SmState) → OnSome (Inv now) o
        → WalkOk (keep_ctx cx s o)
    kept v e o h = (OnSome-or_else (Inv now) s o v h, e)

    both :
        Inv now s
        → cx.mtp ≡ now
        → (o : Option Walk) → OnSome (λ w. Inv now w.0 × (w.1.mtp ≡ cx.mtp)) o
        → WalkOk (or_else (s, cx) o)
    both v e none h = (v, e)
    both v e (some w) h = (h.0, h.1 ∙ e)

    op_commit-Inv : Inv now s → Inv now (op_commit s tx a)
    unfolding op_commit
    op_commit-Inv v = record { unique = v.unique; rows = v.rows; clock = v.clock }

    dispatch-Ok : a.price < u64_mod → Inv now s → cx.mtp ≡ now → WalkOk (dispatch sha256 s tx cx a)
    unfolding dispatch
    dispatch-Ok word v e =
        let keep = kept v e in
        if-elim WalkOk (a.op == 0x03) _ _ (λ _. (op_commit-Inv v, e))
          λ _.
            if-elim WalkOk (a.op == 0x04) _ _
              (λ _. keep _ (Sets.op_claim-Inv now s cx a v sha256 e))
              λ _.
                if-elim WalkOk (a.op == 0x05) _ _ (λ _. (Sets.op_renew-Inv now s cx a v e, e))
                  λ _.
                    if-elim WalkOk (a.op == 0x06) _ _
                      (λ _. keep _ (Sets.op_transfer-Inv now s cx a v))
                      λ _.
                        if-elim WalkOk (a.op == 0x01) _ _
                          (λ _. keep _ (Ops.op_renew_name-Inv now s cx a v e))
                          λ _.
                            if-elim WalkOk (a.op == 0x02) _ _
                              (λ _. keep _ (Ops.op_transfer_name-Inv now s cx a v))
                              λ _.
                                if-elim WalkOk (a.op == 0x0B) _ _
                                  (λ _. keep _ (Ops.op_release_name-Inv now s cx a v))
                                  λ _.
                                    if-elim WalkOk (a.op == 0x07) _ _
                                      (λ _. keep _ (Ops.op_sell-Inv now s cx a v word))
                                      λ _.
                                        if-elim WalkOk (a.op == 0x08) _ _
                                          (λ _. both v e _ (Ops.op_reserve-Inv now s cx a v tx))
                                          λ _.
                                            if-elim WalkOk (a.op == 0x09) _ _
                                              (λ _. both v e _ (Ops.op_settle-Inv now s cx a v tx))
                                              λ _.
                                                if-elim WalkOk (a.op == 0x0A) _ _
                                                  (λ _. keep _ (Sets.op_release-Inv now s cx a v))
                                                  λ _.
                                                    if-elim WalkOk (a.op == 0x0C) _ _
                                                      (λ _.
                                                        keep _
                                                          (Ops.op_sell_to-Inv now s cx a v word))
                                                      λ _.
                                                        if-elim WalkOk (a.op == 0x0D) _ _
                                                          (λ _.
                                                            both v e _
                                                            (Ops.op_pay-Inv now s cx a v tx))
                                                          λ _. (v, e)

    op_as-Ok : Inv now s → cx.mtp ≡ now → WalkOk (op_as s tx cx a)
    unfolding op_as
    op_as-Ok v e = (
      if-elim (Inv now) (act_as (get_elem? tx.inputs a.as_index) cx).actor_valid _ _ (λ _. v)
          (λ _. record { unique = v.unique; rows = v.rows; clock = v.clock }),
      act_as-mtp (get_elem? tx.inputs a.as_index) cx ∙ e,
    )

    run_action-Ok :
        a.price < u64_mod → Inv now s → cx.mtp ≡ now → WalkOk (run_action sha256 s tx cx a)
    unfolding run_action
    run_action-Ok word v e =
        if-elim WalkOk (ltb s.cur_height s.activation_height) _ _ (λ _. (v, e))
          λ _.
            if-elim WalkOk (a.op == 0x0E) _ _ (λ _. op_as-Ok v e)
              λ _.
                if-elim WalkOk (a.op == 0x0F) _ _
                  (λ _. kept v e _ (Sets.op_trade-Inv now s cx a v tx))
                  λ _. if-elim WalkOk cx.actor_valid _ _ (λ _. dispatch-Ok word v e) λ _. (v, e)

  pub walk_one-Ok :
      (tx : SmTx) (c : SmCarrier) (s : SmState) (cx : SmTxCtx)
      → PriceFits c
      → Inv now s
      → cx.mtp ≡ now
      → WalkOk (walk_one sha256 tx c s cx)
  unfolding walk_one
  walk_one-Ok tx c s cx p v e =
      elim c.kind
        as (λ k. WalkOk (elim k as (λ _. Walk) [
          | SmCarKind.action ↦ run_action sha256 s tx cx c.act
          | SmCarKind.ignore ↦ (s, cx)
        ])) [ SmCarKind.action ↦ run_action-Ok s tx cx c.act p v e | SmCarKind.ignore ↦ (v, e) ]

  walk_carriers-Inv :
      (tx : SmTx) (cs : List SmCarrier) (s : SmState) (cx : SmTxCtx)
      → All PriceFits cs
      → Inv now s
      → cx.mtp ≡ now
      → Inv now (walk_carriers sha256 tx cs s cx)
  unfolding walk_carriers
  walk_carriers-Inv tx [] s cx p v e = v
  walk_carriers-Inv tx (c ∷ cs) s cx p v e =
      let cx' : SmTxCtx = record cx { car_value = c.value; car_vout = c.vout } in
      let ok : WalkOk (walk_one sha256 tx c s cx') = walk_one-Ok tx c s cx' p.0 v e in
      walk_carriers-Inv tx cs _ _ p.1 ok.0 ok.1

  pub apply_tx-Inv :
      (s : SmState) (tx : SmTx)
      → All PriceFits tx.carriers
      → Inv now s
      → Inv now (apply_tx sha256 s tx)
  unfolding apply_tx start_ctx
  apply_tx-Inv s tx p v =
      walk_carriers-Inv tx tx.carriers s (start_ctx s tx) p v
        (act_as-mtp (get_elem? tx.inputs 0) _ ∙ v.clock)

  apply_txs-Inv :
      (txs : List SmTx) (s : SmState)
      → All (λ tx. All PriceFits tx.carriers) txs
      → Inv now s
      → Inv now (apply_txs sha256 txs s)
  unfolding apply_txs
  apply_txs-Inv [] s p v = v
  apply_txs-Inv (tx ∷ txs) s p v =
      apply_txs-Inv txs (apply_tx sha256 s tx) p.1 (apply_tx-Inv s tx p.0 v)

-- The prices of a block are 64-bit numbers, and its time is not before that of the blocks above.
abbrev pub TimesRise : ℕ → List Block → Type 0
TimesRise now [] = Unit {0}
TimesRise now (b ∷ bs) = (now ≤ b.mtp) × TimesRise b.mtp bs

abbrev pub BlockFits : Block → Type 0
BlockFits b = All (λ tx. All PriceFits tx.carriers) b.txs

new_state-Inv : (activation : ℕ) → Inv 0 (new_state activation)
unfolding new_state
new_state-Inv activation = record { unique = tt; rows = tt; clock = refl }

module _ (sha256 : List ℕ → ℕ) where
  pub fold_block-Inv :
      (now : ℕ) (s : SmState) (b : Block)
      → now ≤ b.mtp
      → BlockFits b
      → Inv now s
      → Inv b.mtp (fold_block sha256 s b)
  unfolding fold_block
  fold_block-Inv now s b h p v =
      apply_txs-Inv b.mtp sha256 b.txs (begin_block b.height b.mtp b.rate s) p
        (begin_block-Inv now b.height b.mtp b.rate s h v)

  fold_chain-Inv :
      (bs : List Block) (now : ℕ) (s : SmState)
      → TimesRise now bs
      → All BlockFits bs
      → Inv now s
      → (t : ℕ) × Inv t (fold_chain sha256 s bs)
  unfolding fold_chain
  fold_chain-Inv [] now s h p v = (now, v)
  fold_chain-Inv (b ∷ bs) now s h p v =
      fold_chain-Inv bs b.mtp (fold_block sha256 s b) h.1 p.1 (fold_block-Inv now s b h.0 p.0 v)

  -- Folding any chain of blocks whose median times do not fall, and whose prices are 64-bit
  -- numbers, from the empty state, whatever the hash function: each name has one row at most, and
  -- each row is in order at the time of the state.
  pub fold_chain-new_state-Inv :
      (activation : ℕ) (bs : List Block)
      → TimesRise 0 bs
      → All BlockFits bs
      → Inv
          (fold_chain sha256 (new_state activation) bs).cur_mtp
          (fold_chain sha256 (new_state activation) bs)
  fold_chain-new_state-Inv activation bs h p =
      let (t, v) = fold_chain-Inv bs 0 (new_state activation) h p (new_state-Inv activation) in
      subst (λ now. Inv now (fold_chain sha256 (new_state activation) bs)) (sym v.clock) v
