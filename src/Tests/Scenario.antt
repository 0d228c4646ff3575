-- ===== src/Tests/Scenario.antt =====
-- A short history of one name: commit, claim, sale. The hash is a concrete injective function.
use namespace_indexer.Common.{
  ℕ, ◌+◌, ◌≡◌, refl, true, false, List, [], ◌∷◌, replicate, le_read, bytes_eq,
}
use namespace_indexer.Engine.Types.{SmInput, SmAction, SmCarrier, SmCarKind, SmOut, SmTx, SmState}
use namespace_indexer.Engine.Table.{new_state, owns}
use namespace_indexer.Engine.Claim.{commit_preimage, op_claim}
use namespace_indexer.Engine.Market.{op_sell, op_reserve, op_settle}
use namespace_indexer.Engine.Fold.{Block, op_commit, fold_block, fold_chain}

abbrev pub toy_hash : List ℕ → ℕ
toy_hash = le_read

abbrev pub bob : List ℕ
bob = b'b' ∷ b'o' ∷ b'b' ∷ []

abbrev pub amy : List ℕ
amy = b'a' ∷ b'm' ∷ b'y' ∷ []

abbrev pub blank : SmAction
blank = record {
  op = 0;
  name = [];
  name_b = [];
  commitment = 0;
  salt = [];
  addr = 0;
  price = 0;
  window = 0;
  has_anchor = false;
  anchor = 0;
  flags = [];
  as_index = 0;
  idx_a = 0;
  idx_b = 0;
}

abbrev pub carry : SmAction → ℕ → SmCarrier
carry a value = record { kind = SmCarKind.action; act = a; value = value; vout = 0 }

abbrev pub sign : ℕ → SmInput
sign h160 = record { h160 = h160; type = 0; sighash_all = true }

abbrev pub pay_to : ℕ → ℕ → SmOut
pay_to h160 value = record { h160 = h160; type = 0; value = value; vout = 1 }

abbrev pub one_tx : ℕ → SmCarrier → List SmOut → List SmTx
one_tx who c outs =
    record { txindex = 0; inputs = sign who ∷ []; carriers = c ∷ []; outs = outs } ∷ []

abbrev pub salt : List ℕ
salt = replicate 32 1

abbrev pub act_commit : ℕ → List ℕ → SmAction
act_commit who n = record blank { op = 0x03; commitment = toy_hash (commit_preimage salt n who) }

abbrev pub act_claim : List ℕ → SmAction
act_claim n = record blank { op = 0x04; name = n; salt = salt }

abbrev pub on_name : ℕ → List ℕ → SmAction
on_name op n = record blank { op = op; name = n }

abbrev pub act_sell : List ℕ → ℕ → SmAction
act_sell n price = record blank { op = 0x07; name = n; price = price }

abbrev pub at_height : ℕ → List SmTx → Block
at_height h txs = record { height = h; mtp = 1000 + h; rate = 1; txs = txs }

-- Owner 7 claims `bob` and lists it; 8 reserves it and settles.
abbrev pub minted : List Block
minted =
    at_height 1 (one_tx 7 (carry (act_commit 7 bob) 0) [])
    ∷ at_height 2 (one_tx 7 (carry (act_claim bob) 5) [])
    ∷ []

abbrev pub reserved_chain : List Block
reserved_chain =
    at_height 1 (one_tx 7 (carry (act_commit 7 bob) 0) [])
    ∷ at_height 2 (one_tx 7 (carry (act_claim bob) 5) [])
    ∷ at_height 3 (one_tx 7 (carry (act_sell bob 1000) 0) [])
    ∷ at_height 4 (one_tx 8 (carry (on_name 0x08 bob) 5) (pay_to 7 5 ∷ []))
    ∷ []

unfoldable pub minted_state : SmState
unfolding fold_chain new_state commit_preimage le_read
minted_state = fold_chain toy_hash (new_state 0) minted

unfoldable pub reserved_state : SmState
unfolding fold_chain new_state commit_preimage le_read
reserved_state = fold_chain toy_hash (new_state 0) reserved_chain

unfoldable pub settle_block : Block
settle_block = at_height 5 (one_tx 8 (carry (on_name 0x09 bob) 0) (pay_to 7 990 ∷ []))

-- What the engine needs to run.
unfoldable pub engine_program : Unit {0}
unfolding fold_chain fold_block new_state commit_preimage bytes_eq le_read op_commit op_claim
    op_sell op_reserve op_settle owns minted_state reserved_state settle_block
engine_program = tt

minted_owner : owns minted_state 7 bob ≡ true
unfolding engine_program
minted_owner = refl

settled_owner : owns (fold_block toy_hash reserved_state settle_block) 8 bob ≡ true
unfolding engine_program
settled_owner = refl
