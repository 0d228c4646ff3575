-- ===== src/Tests/RulesExamples.antt =====
-- The theorems of the single rules, each at a small input.
use namespace_indexer.Common.{
  ℕ, ◌≤◌, ◌≡◌, ◌⊎◌, refl, true, false, List, [], ◌∷◌, Option, none, some, arith, All, min, bytes_eq,
  if◌then◌else◌, set,
}
use mathlib.Core.List.{Perm}
use namespace_indexer.Engine.Types.{SmAction, SmOut, SmTx, SmNameRow, SmState, SmTxCtx}
use namespace_indexer.Engine.Table.{find_name, new_state, zero_row}
use namespace_indexer.Engine.Lease.{
  rounds, award, waterfill, new_slots, sort_rows, raw_t, total_head,
}
use namespace_indexer.Engine.Lease.Bounds.{
  award-conserves, rounds-Stopped, total_add, Fits, Stopped,
}
use namespace_indexer.Engine.Lease.Even.{award_even, NearLevel}
use namespace_indexer.Engine.Lease.Single.{bought, find_name-waterfill_single}
use namespace_indexer.Engine.Market.{consume_output}
use namespace_indexer.Engine.Market.Payment.{Payable, consume_output_lem}
use namespace_indexer.Engine.Claim.{op_claim}
use namespace_indexer.Engine.Claim.Backed.{Claimed, op_claim-Claimed}
use namespace_indexer.Engine.Trade.{op_trade}
use namespace_indexer.Engine.Trade.Swap.{Swapped, op_trade-Swapped}
use namespace_indexer.Engine.Preblock.{preblock}
use namespace_indexer.Engine.Preblock.Lookup.{swept_row, find_name-preblock}
use namespace_indexer.Engine.Preblock.Sweep.{Current, preblock-Current, fresh_commits}
use namespace_indexer.Engine.Fold.{start_ctx, begin_block, fold_chain}
use namespace_indexer.Tests.Scenario.{
  toy_hash, bob, amy, act_commit, act_claim, blank, at_height, carry, one_tx, pay_to,
  reserved_state, engine_program, sign,
}

rules_program : Unit {0}
unfolding engine_program op_trade op_claim start_ctx begin_block consume_output fold_chain
rules_program = tt

-- Two names of seven days and of one day.
two_rows : List SmNameRow
two_rows =
    record (zero_row bob) { lease_expiry = 30932200 }
    ∷ record (zero_row amy) { lease_expiry = 1000 }
    ∷ []

award-conserves_example :
    (total_add (award 1000 1 5 two_rows)
      ≡ min (raw_t 5 1) (total_head (new_slots 1000 (sort_rows two_rows))))
    × All Fits (award 1000 1 5 two_rows)
award-conserves_example = award-conserves 1000 1 5 two_rows

award_even_example : (level : ℕ) × All (NearLevel level) (award 1000 1 5 two_rows)
award_even_example = award_even 1000 1 5 two_rows

rounds-Stopped_example :
    Stopped (rounds 11 10 (new_slots 1000 two_rows)).0 (rounds 11 10 (new_slots 1000 two_rows)).1
rounds-Stopped_example = rounds-Stopped 10 (new_slots 1000 two_rows)

bob_row : SmNameRow
bob_row = record (zero_row bob) { lease_expiry = 87400 }

bob_table : SmState
bob_table = record (new_state 0) { names = bob_row ∷ [] }

find_name-waterfill_single_example :
    find_name bob (waterfill 1000 1 5 (bob_row ∷ []) bob_table).names ≡ (
      if bytes_eq bob_row.name bob
      then some (bought 1000 1 5 bob_row)
      else find_name bob bob_table.names)
find_name-waterfill_single_example =
    find_name-waterfill_single bob 1000 1 5 bob_row bob_row bob_table
      (unfold bob_table bob_row rules_program in refl)

consume_output_lem_example :
    ((consume_output 7 0 5 (pay_to 7 5 ∷ []) (false ∷ []) ≡ none)
      × ((j : ℕ) (o : SmOut) → ¬ Payable 7 0 5 (pay_to 7 5 ∷ []) (false ∷ []) j o))
    ⊎ ((i : ℕ) × (o : SmOut) × Payable 7 0 5 (pay_to 7 5 ∷ []) (false ∷ []) i o
        × (consume_output 7 0 5 (pay_to 7 5 ∷ []) (false ∷ []) ≡ some (set (false ∷ []) i true))
        × ((j : ℕ) (q : SmOut)
            → Payable 7 0 5 (pay_to 7 5 ∷ []) (false ∷ []) j q
            → o.vout ≤ q.vout))
consume_output_lem_example = consume_output_lem 7 0 5 (pay_to 7 5 ∷ []) (false ∷ []) refl

find_name-preblock_example :
    find_name bob (preblock 9 90000 bob_table).names
    ≡ swept_row 90000 (find_name bob bob_table.names)
find_name-preblock_example =
    find_name-preblock bob 9 90000 bob_table (unfold bob_table rules_program in (refl, tt))

preblock-Current_example :
    All (Current 90000) (preblock 9 90000 reserved_state).names
    × Perm (preblock 9 90000 reserved_state).commits (fresh_commits 90000 reserved_state.commits)
preblock-Current_example =
    preblock-Current 9 90000 reserved_state (unfold rules_program in (λ _. omega arith, tt))

-- A name with a mature commit is claimed.
committed : SmState
committed =
    fold_chain toy_hash (new_state 0)
      (at_height 1 (one_tx 7 (carry (act_commit 7 bob) 0) []) ∷ at_height 2 [] ∷ [])

claim_tx : SmTx
claim_tx = record {
  txindex = 0;
  inputs = sign 7 ∷ [];
  carriers = carry (act_claim bob) 5 ∷ [];
  outs = [];
}

claim_cx : SmTxCtx
claim_cx = record (start_ctx committed claim_tx) { car_value = 5 }

abbrev some_state : Option SmState → SmState
some_state none = new_state 0
some_state (some s) = s

claimed_state : SmState
claimed_state = some_state (op_claim toy_hash committed claim_cx (act_claim bob))

claim_goes : op_claim toy_hash committed claim_cx (act_claim bob) ≡ some claimed_state
unfolding claimed_state claim_cx claim_tx committed rules_program
claim_goes = refl

op_claim-Claimed_example : Claimed toy_hash committed claim_cx (act_claim bob) claimed_state
op_claim-Claimed_example =
    op_claim-Claimed toy_hash committed claim_cx (act_claim bob) claimed_state claim_goes

-- Two owners swap.
swap_state : SmState
swap_state = record (new_state 0) {
  names = record (zero_row bob) { owner = 7 } ∷ record (zero_row amy) { owner = 8 } ∷ [];
}

swap_tx : SmTx
swap_tx = record { txindex = 0; inputs = sign 7 ∷ sign 8 ∷ []; carriers = []; outs = [] }

swap_act : SmAction
swap_act = record blank { op = 0x0F; name = bob; name_b = amy; idx_a = 0; idx_b = 1 }

swap_cx : SmTxCtx
swap_cx = start_ctx swap_state swap_tx

swapped_state : SmState
swapped_state = some_state (op_trade swap_state swap_tx swap_cx swap_act)

swap_goes : op_trade swap_state swap_tx swap_cx swap_act ≡ some swapped_state
unfolding swapped_state swap_cx swap_tx swap_act swap_state rules_program
swap_goes = refl

op_trade-Swapped_example : Swapped swap_state swap_tx swap_cx swap_act swapped_state
op_trade-Swapped_example =
    op_trade-Swapped swap_state swap_tx swap_cx swap_act swapped_state swap_goes
