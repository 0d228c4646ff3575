-- ===== src/Tests/EngineExamples.antt =====
-- The theorems of the engine on a short history of one name.
use namespace_indexer.Common.{◌≡◌, refl, true, [], ◌∷◌, Option, none, some, arith, All, length}
use namespace_indexer.Engine.Types.{SmTx, SmNameRow, SmState, SmTxCtx, is_owned}
use namespace_indexer.Engine.Table.{find_name, find_scratch, new_state, clear, zero_row}
use namespace_indexer.Engine.Market.{op_settle, op_pay, op_sell_to}
use namespace_indexer.Engine.Trade.{op_trade}
use namespace_indexer.Engine.Fold.{begin_block, start_ctx, fold_chain, apply_tx, act_as}
use namespace_indexer.Engine.Invariant.{Inv}
use namespace_indexer.Engine.Invariant.Chain.{
  fold_chain-new_state-Inv, PriceFits, begin_block-Inv, apply_tx-Inv,
}
use namespace_indexer.Engine.Invariant.Sale.{Settled, op_settle-Settled, Paid, op_pay-Paid}
use namespace_indexer.Engine.Authority.Walk.{Stranger, apply_tx-Untouched}
use namespace_indexer.Tests.Scenario.{
  toy_hash, bob, act_sell, carry, pay_to, minted, reserved_chain, minted_state, reserved_state,
  engine_program, on_name, sign,
}

-- What more the examples run.
more_program : Unit {0}
unfolding engine_program op_trade op_pay op_sell_to begin_block start_ctx act_as find_name
    find_scratch zero_row clear
more_program = tt

minted-Inv : Inv minted_state.cur_mtp minted_state
unfolding minted_state
minted-Inv =
    fold_chain-new_state-Inv toy_hash 0 minted (omega arith, (omega arith, tt))
      (((omega arith, tt), tt), (((omega arith, tt), tt), tt))

fold_chain-new_state-Inv_example :
    Inv
      (fold_chain toy_hash (new_state 0) reserved_chain).cur_mtp
      (fold_chain toy_hash (new_state 0) reserved_chain)
fold_chain-new_state-Inv_example =
    fold_chain-new_state-Inv toy_hash 0 reserved_chain
      (omega arith, (omega arith, (omega arith, (omega arith, tt))))
      (
        ((omega arith, tt), tt),
        (((omega arith, tt), tt), (((omega arith, tt), tt), (((omega arith, tt), tt), tt))),
      )

reserved-Inv : Inv reserved_state.cur_mtp reserved_state
unfolding reserved_state
reserved-Inv =
    fold_chain-new_state-Inv toy_hash 0 reserved_chain
      (omega arith, (omega arith, (omega arith, (omega arith, tt))))
      (
        ((omega arith, tt), tt),
        (((omega arith, tt), tt), (((omega arith, tt), tt), (((omega arith, tt), tt), tt))),
      )

-- The block that settles, up to its transaction, and what the transaction does.
unfoldable ready : SmState
ready = begin_block 5 1005 1 reserved_state

settle_tx : SmTx
settle_tx = record {
  txindex = 0;
  inputs = sign 8 ∷ [];
  carriers = carry (on_name 0x09 bob) 0 ∷ [];
  outs = pay_to 7 990 ∷ [];
}

ready-Inv : Inv 1005 ready
unfolding ready reserved_state more_program
ready-Inv = begin_block-Inv 1004 5 1005 1 reserved_state (omega arith) reserved-Inv

settle_cx : SmTxCtx
settle_cx = start_ctx ready settle_tx

abbrev some_row : Option SmNameRow → SmNameRow
some_row none = zero_row []
some_row (some r) = r

abbrev some_state : Option (SmState × SmTxCtx) → SmState × SmTxCtx
some_state none = (new_state 0, settle_cx)
some_state (some w) = w

settled : SmState × SmTxCtx
settled = some_state (op_settle ready settle_tx settle_cx (on_name 0x09 bob))

settle_outs : length settle_tx.outs ≡ length settle_cx.out_consumed
unfolding settle_cx settle_tx more_program
settle_outs = refl

op_settle-Settled_example :
    Settled 1005 ready settle_tx settle_cx (on_name 0x09 bob) ready-Inv settle_outs settled
unfolding settled settle_cx settle_tx ready more_program
op_settle-Settled_example =
    op_settle-Settled 1005 ready settle_tx settle_cx (on_name 0x09 bob) ready-Inv settle_outs
      settled refl

-- The same name, minted only, is offered to 8, who pays; and 9 acts beside it.
offer_tx : SmTx
offer_tx = record {
  txindex = 0;
  inputs = sign 7 ∷ [];
  carriers = carry (record (on_name 0x0C bob) { addr = 8; price = 1000; window = 86400 }) 0 ∷ [];
  outs = [];
}

unfoldable offer_ready : SmState
offer_ready = apply_tx toy_hash (begin_block 5 1005 1 minted_state) offer_tx

pay_tx : SmTx
pay_tx = record {
  txindex = 1;
  inputs = sign 8 ∷ [];
  carriers = carry (on_name 0x0D bob) 0 ∷ [];
  outs = pay_to 7 1000 ∷ [];
}

pay_cx : SmTxCtx
pay_cx = start_ctx offer_ready pay_tx

offer_ready-Inv : Inv 1005 offer_ready
unfolding offer_ready offer_tx more_program
offer_ready-Inv =
    apply_tx-Inv 1005 toy_hash (begin_block 5 1005 1 minted_state) offer_tx (omega arith, tt)
      (begin_block-Inv 1002 5 1005 1 minted_state (omega arith) minted-Inv)

pay_outs : length pay_tx.outs ≡ length pay_cx.out_consumed
unfolding pay_cx pay_tx offer_ready offer_tx more_program
pay_outs = refl

paid_state : SmState × SmTxCtx
paid_state = some_state (op_pay offer_ready pay_tx pay_cx (on_name 0x0D bob))

op_pay-Paid_example :
    Paid 1005 offer_ready pay_tx pay_cx (on_name 0x0D bob) offer_ready-Inv pay_outs paid_state
unfolding paid_state pay_cx pay_tx offer_ready offer_tx more_program
op_pay-Paid_example =
    op_pay-Paid 1005 offer_ready pay_tx pay_cx (on_name 0x0D bob) offer_ready-Inv pay_outs
      paid_state refl

-- A stranger's transaction beside the minted name.
beside : SmState
beside = begin_block 5 1005 1 minted_state

beside-Inv : Inv 1005 beside
unfolding beside more_program
beside-Inv = begin_block-Inv 1002 5 1005 1 minted_state (omega arith) minted-Inv

theft_tx : SmTx
theft_tx = record {
  txindex = 0;
  inputs = sign 8 ∷ [];
  carriers = carry (act_sell bob 1000) 0 ∷ [];
  outs = [];
}

bob_row : SmNameRow
bob_row = some_row (find_name bob beside.names)

bob_plain : is_owned bob_row.st ≡ true
unfolding bob_row beside more_program
bob_plain = refl

strangers : All (Stranger bob_row) theft_tx.inputs
unfolding bob_row beside theft_tx more_program
strangers = (λ _. ground arith, tt)

prices : All PriceFits theft_tx.carriers
unfolding theft_tx
prices = (omega arith, tt)

bob_found : find_name bob beside.names ≡ some bob_row
unfolding bob_row beside more_program
bob_found = refl

bob_settled : find_scratch bob beside.claimsc ≡ none
unfolding beside more_program
bob_settled = refl

apply_tx-Untouched_example : find_name bob (apply_tx toy_hash beside theft_tx).names ≡ some bob_row
apply_tx-Untouched_example =
    apply_tx-Untouched bob bob_row bob_plain theft_tx strangers toy_hash 1005 beside prices
      beside-Inv bob_found bob_settled
