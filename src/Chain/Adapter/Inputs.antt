-- ===== src/Chain/Adapter/Inputs.antt =====
-- What the engine reads of a transaction's inputs: fold.c in protocol/impls/c/src, for src/adapter.c.
use namespace_indexer.Common.{
  ℕ, ◌≡◌, refl, ap, subst, ◌∙◌, true, false, List, [], ◌∷◌, ◌==◌, All, get_elem?, Bool-cases, inl,
  inr,
}
use namespace_indexer.Engine.Types.{SmAction, SmCarKind, SmCarrier, SmInput, SmTx, SmTxCtx, SmState}
use namespace_indexer.Engine.Fold.{
  op_as, start_ctx, dispatch, run_action, walk_one, walk_carriers, apply_tx,
}
use namespace_indexer.Engine.Market.{op_reserve, op_settle, op_pay}
use namespace_indexer.Engine.Fold.{op_commit}
use namespace_indexer.Engine.Trade.{op_trade}
use namespace_indexer.Chain.Adapter.{named_by}

-- An action of the acting identity names an input, a trade two.
named_as :
    (P : ℕ → Type 0) (a : SmAction) → (a.op == 0x0E) ≡ true → All P (named_by a) → P a.as_index
unfolding named_by
named_as P a e h = let same : named_by a ≡ a.as_index ∷ [] = rw e refl in (subst (All P) same h).0

named_trade :
    (P : ℕ → Type 0) (a : SmAction)
    → (a.op == 0x0E) ≡ false
    → (a.op == 0x0F) ≡ true
    → All P (named_by a)
    → P a.idx_a × P a.idx_b
unfolding named_by
named_trade P a e e' h =
    let same : named_by a ≡ a.idx_a ∷ a.idx_b ∷ [] = rw (e, e') refl in
    let both = subst (All P) same h in (both.0, both.1.0)

module _ (sha256 : List ℕ → ℕ) (tx : SmTx) (others : List SmInput) where
  abbrev pub with_others : SmTx
  with_others = record tx { inputs = others }

  -- The two lists of inputs have the same at the index.
  abbrev pub InputAgrees : ℕ → Type 0
  InputAgrees k = get_elem? tx.inputs k ≡ get_elem? others k

  dispatch_same :
      (s : SmState) (cx : SmTxCtx) (a : SmAction)
      → dispatch sha256 s with_others cx a ≡ dispatch sha256 s tx cx a
  unfolding dispatch op_reserve op_settle op_pay op_commit
  dispatch_same s cx a = refl

  op_as_same :
      (s : SmState) (cx : SmTxCtx) (a : SmAction)
      → InputAgrees a.as_index
      → op_as s with_others cx a ≡ op_as s tx cx a
  unfolding op_as
  op_as_same s cx a h = rw h refl

  op_trade_same :
      (s : SmState) (cx : SmTxCtx) (a : SmAction)
      → InputAgrees a.idx_a
      → InputAgrees a.idx_b
      → op_trade s with_others cx a ≡ op_trade s tx cx a
  unfolding op_trade
  op_trade_same s cx a h k = rw (h, k) refl

  run_action_same :
      (s : SmState) (cx : SmTxCtx) (a : SmAction)
      → All InputAgrees (named_by a)
      → run_action sha256 s with_others cx a ≡ run_action sha256 s tx cx a
  unfolding run_action
  run_action_same s cx a h = elim (Bool-cases (a.op == 0x0E)) [
    | inl e ↦ let same = named_as InputAgrees a e h in rw (e, op_as_same s cx a same) refl
    | inr e ↦ elim (Bool-cases (a.op == 0x0F)) [
      | inl e' ↦
          let both = named_trade InputAgrees a e e' h in
          rw (e, e', op_trade_same s cx a both.0 both.1) refl
      | inr e' ↦ rw (e, e', dispatch_same s cx a) refl
    ]
  ]

  walk_one_same :
      (c : SmCarrier) (s : SmState) (cx : SmTxCtx)
      → All InputAgrees (named_by c.act)
      → walk_one sha256 with_others c s cx ≡ walk_one sha256 tx c s cx
  unfolding walk_one
  walk_one_same c s cx h =
      elim c.kind
        as (λ k.
          elim k as (λ _. SmState × SmTxCtx) [
            | SmCarKind.action ↦ run_action sha256 s with_others cx c.act
            | SmCarKind.ignore ↦ (s, cx)
          ]
          ≡ elim k as (λ _. SmState × SmTxCtx) [
            | SmCarKind.action ↦ run_action sha256 s tx cx c.act
            | SmCarKind.ignore ↦ (s, cx)
          ]) [ SmCarKind.action ↦ run_action_same s cx c.act h | SmCarKind.ignore ↦ refl ]

  walk_carriers_same :
      (cs : List SmCarrier) (s : SmState) (cx : SmTxCtx)
      → All (λ c. All InputAgrees (named_by c.act)) cs
      → walk_carriers sha256 with_others cs s cx ≡ walk_carriers sha256 tx cs s cx
  unfolding walk_carriers
  walk_carriers_same [] s cx h = refl
  walk_carriers_same (c ∷ cs) s cx h =
      let here : SmTxCtx = record cx { car_value = c.value; car_vout = c.vout } in
      let w = walk_one sha256 with_others c s here in
      walk_carriers_same cs w.0 w.1 h.1
      ∙ ap (λ v. walk_carriers sha256 tx cs v.0 v.1) (walk_one_same c s here h.0)

  same_start : (s : SmState) → InputAgrees 0 → start_ctx s with_others ≡ start_ctx s tx
  unfolding start_ctx
  same_start s h = rw h refl

  pub apply_tx_same :
      (s : SmState)
      → InputAgrees 0
      → All (λ c. All InputAgrees (named_by c.act)) tx.carriers
      → apply_tx sha256 s with_others ≡ apply_tx sha256 s tx
  unfolding apply_tx
  apply_tx_same s h k =
      walk_carriers_same tx.carriers s (start_ctx s with_others) k
      ∙ ap (walk_carriers sha256 tx tx.carriers s) (same_start s h)
