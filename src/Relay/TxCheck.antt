-- ===== src/Relay/TxCheck.antt =====
-- The validation of a transaction over its own bytes: src/txcheck.c. A transaction that passes has
-- no reason.
pub mod Payee
pub mod Outputs
pub mod Standard
pub mod PushOnly
use namespace_indexer.Common.{
  ℕ, zero, suc, ◌+◌, ◌*◌, ◌%◌, ◌^◌, Bool, true, false, not, ◌&&◌, ◌||◌, List, [], ◌∷◌, Option, none,
  some, ltb, leb, ◌==◌, if◌then◌else◌, length, take, drop, le_read, bytes_eq, ◌>>=◌, ◌>>◌, guard,
}
use namespace_indexer.Chain.Script.{script_payee, op_return_payload}
use namespace_indexer.Chain.Tx.{IdxIn, IdxOut, IdxTx, idx_tx_parse}

abbrev pub tx_min_size : ℕ
tx_min_size = 61

abbrev pub tx_max_size : ℕ
tx_max_size = 100000

abbrev pub tx_max_scriptsig : ℕ
tx_max_scriptsig = 1650

abbrev pub tx_dust_limit : ℕ
tx_dust_limit = 1000000

abbrev pub tx_relay_carrier_max : ℕ
tx_relay_carrier_max = 80

abbrev pub tx_max_money : ℕ
tx_max_money = 10000000000 * 100000000

-- The texts that go to `reason`.
pub data Reason : Type 0 where
  too_small too_large malformed no_inputs no_outputs coinbase duplicate_input : Reason
  scriptsig_too_large not_push_only value_range total_range dust carrier_too_large : Reason
  nonstandard : Reason

-- What an opcode pushes: the number of bytes, and the script from there on.
unfoldable pub push_size : ℕ → List ℕ → Option (ℕ × List ℕ)
unfolding le_read
push_size op s =
    if ltb 0x60 op
    then none
    else if ltb op 0x4c
    then some (op, s)
    else if op == 0x4c
    then guard (not (ltb (length s) 1)) >> some (le_read (take 1 s), drop 1 s)
    else if op == 0x4d
    then guard (not (ltb (length s) 2)) >> some (le_read (take 2 s), drop 2 s)
    else if op == 0x4e
    then guard (not (ltb (length s) 4)) >> some (le_read (take 4 s), drop 4 s)
    else some (0, s)

-- The loop on fuel; each turn takes a byte off the script.
unfoldable pub push_loop : ℕ → List ℕ → Bool
unfolding push_size
push_loop fuel [] = true
push_loop zero (op ∷ s) = false
push_loop (suc fuel) (op ∷ s) = elim (push_size op s) [
  | none ↦ false
  | some (len, rest) ↦
      let after = push_loop fuel (drop len rest) in if ltb (length rest) len then false else after
]

unfoldable pub script_push_only : List ℕ → Bool
unfolding push_loop
script_push_only s = push_loop (length s) s

unfoldable pub all_zero : List ℕ → Bool
all_zero [] = true
all_zero (x ∷ xs) = x == 0 && all_zero xs

-- A null outpoint as the only input.
unfoldable pub is_coinbase : List IdxIn → Bool
unfolding all_zero le_read
is_coinbase (i ∷ []) =
    all_zero (take 32 i.prevout) && le_read (take 4 (drop 32 i.prevout)) == 0xFFFFFFFF
is_coinbase _ = false

unfoldable pub has_prevout : List ℕ → List IdxIn → Bool
unfolding bytes_eq
has_prevout p [] = false
has_prevout p (i ∷ is) = bytes_eq p i.prevout || has_prevout p is

unfoldable pub duplicate_prevout : List IdxIn → Bool
unfolding has_prevout
duplicate_prevout [] = false
duplicate_prevout (i ∷ is) = has_prevout i.prevout is || duplicate_prevout is

-- The checks run on while there is no reason.
abbrev pub reject_if : Bool → Reason → Option Reason → Option Reason
reject_if b r next = if b then some r else next

unfoldable pub check_scriptsigs : List IdxIn → Option Reason → Option Reason
unfolding script_push_only
check_scriptsigs [] next = next
check_scriptsigs (i ∷ is) next =
    reject_if (ltb tx_max_scriptsig (length i.scriptsig)) Reason.scriptsig_too_large (
      reject_if (not (script_push_only i.scriptsig)) Reason.not_push_only
        (check_scriptsigs is next))

-- A negative `int64_t` has its bit pattern at 2 ^ 63 or above.
abbrev pub out_of_range : ℕ → Bool
out_of_range v = leb (2 ^ 63) v || ltb tx_max_money v

-- The template of an output of the value, and the limit that goes with it.
unfoldable pub check_script : ℕ → List ℕ → Option Reason
check_script v spk = elim (script_payee spk) [
  | some payee ↦ reject_if (ltb v tx_dust_limit) Reason.dust none
  | none ↦ elim (op_return_payload spk) [
    | some d ↦ reject_if (ltb tx_relay_carrier_max (length d)) Reason.carrier_too_large none
    | none ↦ some Reason.nonstandard
  ]
]

unfoldable pub or_next : Option Reason → Option Reason → Option Reason
or_next none next = next
or_next (some r) next = some r

-- The outputs behind those of the total.
unfoldable pub check_outs : List IdxOut → ℕ → Option Reason
unfolding or_next
check_outs [] total = none
check_outs (o ∷ os) total =
    let sum = (total + o.value) % 2 ^ 64 in
    reject_if (out_of_range o.value) Reason.value_range (
      reject_if (out_of_range sum) Reason.total_range
        (or_next (check_script o.value o.spk) (check_outs os sum)))

unfoldable pub check_tx : IdxTx → Option Reason
unfolding is_coinbase duplicate_prevout check_scriptsigs check_outs
check_tx tx = reject_if (ltb (length tx.ins) 1) Reason.no_inputs (
    reject_if (ltb (length tx.outs) 1) Reason.no_outputs (
      reject_if (is_coinbase tx.ins) Reason.coinbase (
        reject_if (duplicate_prevout tx.ins) Reason.duplicate_input
          (check_scriptsigs tx.ins (check_outs tx.outs 0)))))

unfoldable pub txcheck_stateless : (List ℕ → ℕ) → List ℕ → Option Reason
unfolding idx_tx_parse check_tx
txcheck_stateless sha256 raw = reject_if (ltb (length raw) tx_min_size) Reason.too_small (
    reject_if (ltb tx_max_size (length raw)) Reason.too_large
      (elim (idx_tx_parse sha256 raw) [ none ↦ some Reason.malformed | some tx ↦ check_tx tx ]))
