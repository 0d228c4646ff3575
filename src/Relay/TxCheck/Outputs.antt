-- ===== src/Relay/TxCheck/Outputs.antt =====
-- The outputs that the checks of src/txcheck.c let through.
use namespace_indexer.Common.{
  ℕ, ◌+◌, ◌%◌, ◌^◌, ◌≤◌, ◌≡◌, refl, ap, ◌∙◌, ◌↔◌, ◌⊎◌, inl, inr, Bool, false, List, [], ◌∷◌, Option,
  none, some, ltb, ◌==◌, arith, All, length, Bool-cases, Option-cases,
}
use namespace_indexer.Engine.Codec.Layout.{Byte}
use namespace_indexer.Chain.Script.{script_payee, op_return_payload}
use namespace_indexer.Chain.Script.Exact.{carrier_script, op_return_payload_iff}
use namespace_indexer.Chain.Tx.{IdxOut}
use namespace_indexer.Relay.TxCheck.Payee.{PayeeScript, script_payee_read, script_payee_of}
use namespace_indexer.Relay.TxCheck.{
  tx_dust_limit, tx_relay_carrier_max, tx_max_money, Reason, reject_if, out_of_range, check_script,
  or_next, check_outs,
}

-- A script that pays to a hash, of an amount that is not dust, or a carrier that is relayed.
abbrev pub StandardOut : IdxOut → Type 0
StandardOut o =
    (PayeeScript o.spk × (tx_dust_limit ≤ o.value))
    ⊎ ((d : List ℕ) × (o.spk ≡ carrier_script d) × (length d ≤ tx_relay_carrier_max))

abbrev pub plain_total : List IdxOut → ℕ
plain_total [] = 0
plain_total (o ∷ os) = o.value + plain_total os

payee_check :
    (v : ℕ) (spk : List ℕ) (payee : ℕ × ℕ)
    → script_payee spk ≡ some payee
    → check_script v spk ≡ reject_if (ltb v tx_dust_limit) Reason.dust none
unfolding check_script
payee_check v spk payee h = rw (h, check_script) refl

carrier_check :
    (v : ℕ) (spk d : List ℕ)
    → script_payee spk ≡ none
    → op_return_payload spk ≡ some d
    → check_script v spk
      ≡ reject_if (ltb tx_relay_carrier_max (length d)) Reason.carrier_too_large none
unfolding check_script
carrier_check v spk d h k = rw (h, check_script) (rw k refl)

other_check :
    (v : ℕ) (spk : List ℕ)
    → script_payee spk ≡ none
    → op_return_payload spk ≡ none
    → check_script v spk ≡ some Reason.nonstandard
unfolding check_script
other_check v spk h k = rw (h, check_script) (rw k refl)

carrier_payee : (d : List ℕ) → script_payee (carrier_script d) ≡ none
unfolding script_payee
carrier_payee d = elim (Bool-cases (length (carrier_script d) == 25)) [
  | inl e ↦ elim (Bool-cases (length (carrier_script d) == 23)) [
    | inl e' ↦ rw (e, e') refl
    | inr e' ↦ rw (e, e') refl
  ]
  | inr e ↦ elim (Bool-cases (length (carrier_script d) == 23)) [
    | inl e' ↦ rw (e, e') refl
    | inr e' ↦ rw (e, e') refl
  ]
]

check_script_iff :
    (o : IdxOut) → All Byte o.spk → (check_script o.value o.spk ≡ none) ↔ StandardOut o
check_script_iff o bytes = (there, back)
  where
    there : check_script o.value o.spk ≡ none → StandardOut o
    there h = elim (Option-cases (script_payee o.spk)) [
      | inr (payee, e) ↦
          let e' = payee_check o.value o.spk payee e in
          inl (script_payee_read o.spk payee e, ground arith)
      | inl e ↦ elim (Option-cases (op_return_payload o.spk)) [
        | inr (d, k) ↦
            let e' = carrier_check o.value o.spk d e k in
            inr (d, ((op_return_payload_iff o.spk d bytes).0 k).0, ground arith)
        | inl k ↦ let e' = other_check o.value o.spk e k in absurd (ground arith)
      ]
    ]

    back : StandardOut o → check_script o.value o.spk ≡ none
    back (inl (paid, high)) =
        let (payee, e) = script_payee_of o.spk paid in
        let e' = payee_check o.value o.spk payee e in ground arith
    back (inr (d, e, short)) =
        let none_paid : script_payee o.spk ≡ none = ap script_payee e ∙ carrier_payee d in
        let k = (op_return_payload_iff o.spk d bytes).1 (e, omega arith) in
        let e' = carrier_check o.value o.spk d none_paid k in ground arith

-- The sum of values in range does not wrap around.
range_iff :
    (total v : ℕ)
    → total ≤ tx_max_money
    → ((out_of_range v ≡ false) × (out_of_range ((total + v) % 2 ^ 64) ≡ false))
      ↔ (total + v ≤ tx_max_money)
range_iff total v h = (λ (a, b). ground arith, λ k. (ground arith, ground arith))

both_iff :
    (a b : Bool) (r r' : Reason) (next : Option Reason)
    → (reject_if a r (reject_if b r' next) ≡ none) ↔ (((a ≡ false) × (b ≡ false)) × (next ≡ none))
both_iff a b r r' next =
    (λ h. ((ground arith, ground arith), ground arith), λ ((x, y), z). ground arith)

or_next_iff : (a b : Option Reason) → (or_next a b ≡ none) ↔ ((a ≡ none) × (b ≡ none))
unfolding or_next
or_next_iff none b = (λ h. (refl, h), λ h. h.1)
or_next_iff (some r) b = (λ h. absurd (ground arith), λ h. let e = h.0 in absurd (ground arith))

module _ (o : IdxOut) (os : List IdxOut) (total : ℕ) (bytes : All Byte o.spk)
    (h : total ≤ tx_max_money)
    (later : (t : ℕ)
      → t ≤ tx_max_money
      → (check_outs os t ≡ none) ↔ ((t + plain_total os ≤ tx_max_money) × All StandardOut os)) where
  abbrev rest : Option Reason
  rest = check_outs os ((total + o.value) % 2 ^ 64)

  outs_pass :
      check_outs (o ∷ os) total ≡ none
      → (total + plain_total (o ∷ os) ≤ tx_max_money) × All StandardOut (o ∷ os)
  unfolding check_outs
  outs_pass e =
      let (ranges, e') =
        (both_iff (out_of_range o.value) (out_of_range ((total + o.value) % 2 ^ 64))
            Reason.value_range Reason.total_range (or_next (check_script o.value o.spk) rest)).0
          e in
      let fits = (range_iff total o.value h).0 ranges in
      let (s, more) = (or_next_iff (check_script o.value o.spk) rest).0 e' in
      let (money, all) = (later ((total + o.value) % 2 ^ 64) (omega arith)).0 more in
      (omega arith, ((check_script_iff o bytes).0 s, all))

  pass_outs :
      (total + plain_total (o ∷ os) ≤ tx_max_money) × All StandardOut (o ∷ os)
      → check_outs (o ∷ os) total ≡ none
  unfolding check_outs
  pass_outs (money, (s, all)) =
      let fits : total + o.value ≤ tx_max_money = omega arith in
      (both_iff (out_of_range o.value) (out_of_range ((total + o.value) % 2 ^ 64))
          Reason.value_range Reason.total_range (or_next (check_script o.value o.spk) rest)).1
        (
          (range_iff total o.value h).1 fits,
          (or_next_iff (check_script o.value o.spk) rest).1 (
            (check_script_iff o bytes).1 s,
            (later ((total + o.value) % 2 ^ 64) (omega arith)).1 (omega arith, all),
          ),
        )

pub check_outs_iff :
    (os : List IdxOut) (total : ℕ)
    → All (λ o. All Byte o.spk) os
    → total ≤ tx_max_money
    → (check_outs os total ≡ none) ↔ ((total + plain_total os ≤ tx_max_money) × All StandardOut os)
unfolding check_outs
check_outs_iff [] total bytes h = (λ e. (omega arith, tt), λ e. refl)
check_outs_iff (o ∷ os) total bytes h = (
  outs_pass o os total bytes.0 h (λ t k. check_outs_iff os t bytes.1 k),
  pass_outs o os total bytes.0 h (λ t k. check_outs_iff os t bytes.1 k),
)
