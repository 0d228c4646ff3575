-- ===== src/Chain/Adapter.antt =====
-- From a transaction of the chain to one of the engine: src/adapter.c. The attribution of
-- src/attrib.c, which gives an identity and its type for an input it verifies, is a parameter.
pub mod Inputs
pub mod Lazy
use namespace_indexer.Common.{
  ℕ, zero, suc, ◌+◌, Bool, true, false, ◌||◌, List, [], ◌∷◌, ◌++◌, Option, none, some, ltb, ◌==◌,
  if◌then◌else◌, length, set, replicate, get_elem?,
}
use namespace_indexer.Engine.Types.{SmAction, SmCarKind, SmCarrier, SmInput, SmOut, SmTx, SmState}
use namespace_indexer.Engine.Codec.{zero_action, decode_payload}
use namespace_indexer.Engine.Fold.{apply_tx}
use namespace_indexer.Chain.Script.{script_payee, op_return_payload}
use namespace_indexer.Chain.Tx.{IdxOut, IdxTx}

abbrev pub zero_carrier : SmCarrier
zero_carrier = record { kind = SmCarKind.action; act = zero_action 0; value = 0; vout = 0 }

abbrev pub is_action : SmCarKind → Bool
is_action SmCarKind.action = true
is_action SmCarKind.ignore = false

-- The pre-scan for an output that decodes to a carrier; one that is not ignored is an action.
unfoldable pub have_carrier : List IdxOut → Bool
unfolding op_return_payload decode_payload
have_carrier [] = false
have_carrier (o ∷ os) = elim (op_return_payload o.spk) [
  | none ↦ have_carrier os
  | some p ↦ is_action (decode_payload p zero_carrier).kind || have_carrier os
]

-- The inputs that an action names.
unfoldable pub named_by : SmAction → List ℕ
named_by a =
    if a.op == 0x0E then a.as_index ∷ [] else if a.op == 0x0F then a.idx_a ∷ a.idx_b ∷ [] else []

-- The flags of the named inputs; an index past the inputs sets none.
unfoldable pub mark : List ℕ → List Bool → List Bool
mark [] named = named
mark (k ∷ ks) named = mark ks (set named k true)

pub record Gathered : Type 0 where
  pub named : List Bool
  pub carriers : List SmCarrier
  pub outs : List SmOut

unfoldable pub gather_carrier : IdxOut → List ℕ → Gathered → Gathered
unfolding decode_payload named_by mark
gather_carrier o p g =
    let car = decode_payload p zero_carrier in
    if is_action car.kind
    then record {
      named = mark (named_by car.act) g.named;
      carriers = g.carriers ++ record car { value = o.value; vout = o.vout } ∷ [];
      outs = g.outs;
    }
    else g

unfoldable pub gather_payee : IdxOut → Gathered → Gathered
unfolding script_payee
gather_payee o g = elim (script_payee o.spk) [
  | none ↦ g
  | some (h160, type) ↦ record g {
    outs = g.outs ++ record { h160 = h160; type = type; value = o.value; vout = o.vout } ∷ [];
  }
]

unfoldable pub gather_one : IdxOut → Gathered → Gathered
unfolding op_return_payload gather_carrier gather_payee
gather_one o g = elim (op_return_payload o.spk) [
  | some p ↦ gather_carrier o p g
  | none ↦ gather_payee o g
]

unfoldable pub gather : List IdxOut → Gathered → Gathered
unfolding gather_one
gather [] g = g
gather (o ∷ os) g = gather os (gather_one o g)

abbrev pub zero_input : SmInput
zero_input = record { h160 = 0; type = 0; sighash_all = false }

-- `attribute raw k` is the identity of input k and its type, where the source says FOUND.
module _ (attribute : List ℕ → ℕ → Option (ℕ × ℕ)) where
  unfoldable pub attributed : List ℕ → ℕ → SmInput
  attributed raw k = elim (attribute raw k) [
    | none ↦ zero_input
    | some (identity, type) ↦ record { h160 = identity; type = type; sighash_all = true }
  ]

  -- The inputs from the k-th on, one for each flag that is left.
  unfoldable pub adapt_inputs : List ℕ → ℕ → List Bool → List SmInput
  unfolding attributed
  adapt_inputs raw k [] = []
  adapt_inputs raw k (flag ∷ named) =
      (if k == 0 || flag then attributed raw k else zero_input) ∷ adapt_inputs raw (suc k) named

  -- The transaction for the engine.
  unfoldable pub adapted : IdxTx → ℕ → SmTx
  unfolding gather adapt_inputs
  adapted tx txindex =
      let g =
        gather tx.outs
          (record { named = replicate (length tx.ins) false; carriers = []; outs = [] }) in
      record {
        txindex = txindex;
        inputs = adapt_inputs tx.raw 0 g.named;
        carriers = g.carriers;
        outs = g.outs;
      }

  -- The state, and whether the transaction was folded.
  unfoldable pub idx_adapt_tx : (List ℕ → ℕ) → SmState → IdxTx → ℕ → SmState × Bool
  unfolding have_carrier adapted apply_tx
  idx_adapt_tx sha256 s tx txindex =
      if have_carrier tx.outs then (apply_tx sha256 s (adapted tx txindex), true) else (s, false)
