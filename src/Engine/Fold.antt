-- ===== src/Engine/Fold.antt =====
-- The fold driver: protocol/impls/c/src/fold.c. The id that `synth_txid` builds is left out, as no
-- handler reads it.
use namespace_indexer.Common.{
  ℕ, true, false, List, [], ◌∷◌, Option, none, some, ltb, ◌==◌, if◌then◌else◌, or_else, get_elem?,
  length, replicate,
}
use namespace_indexer.Engine.Event.{ev_as_drop}
use namespace_indexer.Engine.Types.{SmAction, SmCarrier, SmCarKind, SmInput, SmTx, SmState, SmTxCtx}
use namespace_indexer.Engine.Table.{commit_add, count_ev}
use namespace_indexer.Engine.Preblock.{preblock}
use namespace_indexer.Engine.Claim.{op_claim}
use namespace_indexer.Engine.Market.{op_sell, op_reserve, op_settle, op_sell_to, op_pay}
use namespace_indexer.Engine.Trade.{op_trade}
use namespace_indexer.Engine.Bitmap.{
  op_renew, op_transfer, op_release, op_renew_name, op_transfer_name, op_release_name,
}

unfoldable pub begin_block : ℕ → ℕ → ℕ → SmState → SmState
unfolding preblock
begin_block height mtp rate s = record (preblock height mtp s) {
  cur_height = height;
  cur_mtp = mtp;
  cur_rate = rate;
  claimsc = [];
}

-- The state and the context between two carriers.
abbrev pub Walk : Type 0
Walk = SmState × SmTxCtx

abbrev pub keep_ctx : SmTxCtx → SmState → Option SmState → Walk
keep_ctx cx s o = (or_else s o, cx)

-- The acting identity after an input, or none, is pointed to.
unfoldable pub act_as : Option SmInput → SmTxCtx → SmTxCtx
act_as none cx = record cx { actor_valid = false }
act_as (some i) cx =
    if i.sighash_all
    then record cx { actor = i.h160; actor_type = i.type; actor_valid = true }
    else record cx { actor_valid = false }

unfoldable pub op_as : SmState → SmTx → SmTxCtx → SmAction → Walk
unfolding act_as count_ev
op_as s tx cx a =
    let cx' = act_as (get_elem? tx.inputs a.as_index) cx in
    (if cx'.actor_valid then s else record s { ev = count_ev ev_as_drop s.ev }, cx')

unfoldable pub op_commit : SmState → SmTx → SmAction → SmState
unfolding commit_add
op_commit s tx a = record s {
  commits = commit_add a.commitment s.cur_height tx.txindex s.cur_mtp s.commits;
}

-- The context at the start: nothing consumed, and `vin[0]` as the acting identity.
unfoldable pub start_ctx : SmState → SmTx → SmTxCtx
unfolding act_as
start_ctx s tx = act_as (get_elem? tx.inputs 0) (record {
  height = s.cur_height;
  mtp = s.cur_mtp;
  rate = s.cur_rate;
  txindex = tx.txindex;
  actor = 0;
  actor_type = 0;
  actor_valid = false;
  car_value = 0;
  car_vout = 0;
  out_consumed = replicate (length tx.outs) false;
})

-- A block as the driver is fed it.
pub record Block : Type 0 where
  pub height : ℕ
  pub mtp : ℕ
  pub rate : ℕ
  pub txs : List SmTx

module _ (sha256 : List ℕ → ℕ) where
  -- The `switch` over the opcodes of the acting identity.
  unfoldable pub dispatch : SmState → SmTx → SmTxCtx → SmAction → Walk
  dispatch s tx cx a =
      if a.op == 0x03
      then (op_commit s tx a, cx)
      else if a.op == 0x04
      then keep_ctx cx s (op_claim sha256 s cx a)
      else if a.op == 0x05
      then (op_renew s cx a, cx)
      else if a.op == 0x06
      then keep_ctx cx s (op_transfer s cx a)
      else if a.op == 0x01
      then keep_ctx cx s (op_renew_name s cx a)
      else if a.op == 0x02
      then keep_ctx cx s (op_transfer_name s cx a)
      else if a.op == 0x0B
      then keep_ctx cx s (op_release_name s cx a)
      else if a.op == 0x07
      then keep_ctx cx s (op_sell s cx a)
      else if a.op == 0x08
      then or_else (s, cx) (op_reserve s tx cx a)
      else if a.op == 0x09
      then or_else (s, cx) (op_settle s tx cx a)
      else if a.op == 0x0A
      then keep_ctx cx s (op_release s cx a)
      else if a.op == 0x0C
      then keep_ctx cx s (op_sell_to s cx a)
      else if a.op == 0x0D
      then or_else (s, cx) (op_pay s tx cx a)
      else (s, cx)

  -- One action, behind the activation gate.
  unfoldable pub run_action : SmState → SmTx → SmTxCtx → SmAction → Walk
  unfolding dispatch op_as
  run_action s tx cx a =
      if ltb s.cur_height s.activation_height
      then (s, cx)
      else if a.op == 0x0E
      then op_as s tx cx a
      else if a.op == 0x0F
      then keep_ctx cx s (op_trade s tx cx a)
      else if cx.actor_valid
      then dispatch s tx cx a
      else (s, cx)

  -- One carrier: an action runs, anything else is passed over.
  unfoldable pub walk_one : SmTx → SmCarrier → SmState → SmTxCtx → Walk
  unfolding run_action
  walk_one tx c s cx = elim c.kind as (λ _. Walk) [
    | SmCarKind.action ↦ run_action s tx cx c.act
    | SmCarKind.ignore ↦ (s, cx)
  ]

  unfoldable pub walk_carriers : SmTx → List SmCarrier → SmState → SmTxCtx → SmState
  unfolding walk_one
  walk_carriers tx [] s cx = s
  walk_carriers tx (c ∷ cs) s cx =
      let w = walk_one tx c s (record cx { car_value = c.value; car_vout = c.vout }) in
      walk_carriers tx cs w.0 w.1

  unfoldable pub apply_tx : SmState → SmTx → SmState
  unfolding walk_carriers start_ctx
  apply_tx s tx = walk_carriers tx tx.carriers s (start_ctx s tx)

  unfoldable pub apply_txs : List SmTx → SmState → SmState
  unfolding apply_tx
  apply_txs [] s = s
  apply_txs (tx ∷ txs) s = apply_txs txs (apply_tx s tx)

  -- `sm_begin_block`, then `sm_apply_tx` for each transaction in order.
  unfoldable pub fold_block : SmState → Block → SmState
  unfolding begin_block apply_txs
  fold_block s b = apply_txs b.txs (begin_block b.height b.mtp b.rate s)

  unfoldable pub fold_chain : SmState → List Block → SmState
  unfolding fold_block
  fold_chain s [] = s
  fold_chain s (b ∷ bs) = fold_chain (fold_block s b) bs
