-- ===== src/Relay/TxCheck/Standard.antt =====
-- What the checks of src/txcheck.c let through.
use namespace_indexer.Common.{
  ℕ, ◌≤◌, ◌≡◌, ◌≢◌, refl, ◌↔◌, inl, inr, Bool, true, false, not, List, [], ◌∷◌, Option, none, ltb,
  arith, All, length, take, drop, le_read, bytes_eq, bytes_eq_iff, Bool-cases,
}
use namespace_indexer.Engine.Codec.Layout.{Byte}
use namespace_indexer.Chain.Tx.Wire.{WireTx, serialize, TxFits}
use namespace_indexer.Chain.Tx.Layout.{view_of, idx_tx_parse-serialize}
use namespace_indexer.Chain.Tx.{IdxIn, IdxTx}
use namespace_indexer.Relay.TxCheck.{
  tx_min_size, tx_max_size, tx_max_scriptsig, tx_max_money, Reason, script_push_only, all_zero,
  is_coinbase, has_prevout, duplicate_prevout, reject_if, check_scriptsigs, check_outs, check_tx,
  txcheck_stateless,
}
use namespace_indexer.Relay.TxCheck.Outputs.{StandardOut, plain_total, check_outs_iff}
use namespace_indexer.Relay.TxCheck.PushOnly.{Push, PushFits, write_pushes, script_push_only_iff}

-- The only input of a coinbase: the null hash and the last index.
abbrev pub Coinbase : List IdxIn → Type 0
Coinbase (i ∷ []) =
    All (λ x. x ≡ 0) (take 32 i.prevout) × (le_read (take 4 (drop 32 i.prevout)) ≡ 0xFFFFFFFF)
Coinbase _ = ⊥

abbrev pub DistinctPrevouts : List IdxIn → Type 0
DistinctPrevouts [] = Unit {0}
DistinctPrevouts (i ∷ is) = All (λ j. i.prevout ≢ j.prevout) is × DistinctPrevouts is

-- Pushes alone, within the limit.
abbrev pub StandardIn : IdxIn → Type 0
StandardIn i =
    (length i.scriptsig ≤ tx_max_scriptsig)
    × ((ps : List Push) × All PushFits ps × (i.scriptsig ≡ write_pushes ps))

pub record StandardTx (tx : IdxTx) : Type 0 where
  pub some_in : 1 ≤ length tx.ins
  pub some_out : 1 ≤ length tx.outs
  pub loose : ¬ Coinbase tx.ins
  pub distinct : DistinctPrevouts tx.ins
  pub scripts : All StandardIn tx.ins
  pub money : plain_total tx.outs ≤ tx_max_money
  pub templates : All StandardOut tx.outs

-- The scripts are bytes.
pub record BytesTx (tx : IdxTx) : Type 0 where
  pub ins : All (λ i. All Byte i.scriptsig) tx.ins
  pub outs : All (λ o. All Byte o.spk) tx.outs

all_zero_iff : (xs : List ℕ) → (all_zero xs ≡ true) ↔ All (λ x. x ≡ 0) xs
unfolding all_zero
all_zero_iff [] = (λ h. tt, λ h. refl)
all_zero_iff (x ∷ xs) = (
  λ h. (ground arith, (all_zero_iff xs).0 (ground arith)),
  λ h. let e = h.0 in let rest = (all_zero_iff xs).1 h.1 in ground arith,
)

is_coinbase_iff : (is : List IdxIn) → (is_coinbase is ≡ true) ↔ Coinbase is
unfolding is_coinbase
is_coinbase_iff [] = (λ h. absurd (ground arith), λ h. absurd h)
is_coinbase_iff (i ∷ []) = (
  λ h. ((all_zero_iff (take 32 i.prevout)).0 (ground arith), ground arith),
  λ h. let zeros = (all_zero_iff (take 32 i.prevout)).1 h.0 in let last = h.1 in ground arith,
)
is_coinbase_iff (i ∷ j ∷ is) = (λ h. absurd (ground arith), λ h. absurd h)

has_prevout_iff :
    (p : List ℕ) (is : List IdxIn) → (has_prevout p is ≡ false) ↔ All (λ j. p ≢ j.prevout) is
unfolding has_prevout
has_prevout_iff p [] = (λ h. tt, λ h. refl)
has_prevout_iff p (i ∷ is) = (
  λ h. (
    (λ e. let t = (bytes_eq_iff p i.prevout).1 e in absurd (ground arith)),
    (has_prevout_iff p is).0 (ground arith),
  ),
  λ h. elim (Bool-cases (bytes_eq p i.prevout)) [
    | inl e ↦ absurd (h.0 ((bytes_eq_iff p i.prevout).0 e))
    | inr e ↦ let rest = (has_prevout_iff p is).1 h.1 in ground arith
  ],
)

duplicate_prevout_iff : (is : List IdxIn) → (duplicate_prevout is ≡ false) ↔ DistinctPrevouts is
unfolding duplicate_prevout
duplicate_prevout_iff [] = (λ h. tt, λ h. refl)
duplicate_prevout_iff (i ∷ is) = (
  λ h. (
    (has_prevout_iff i.prevout is).0 (ground arith),
    (duplicate_prevout_iff is).0 (ground arith),
  ),
  λ h.
      let here = (has_prevout_iff i.prevout is).1 h.0 in
      let rest = (duplicate_prevout_iff is).1 h.1 in ground arith,
)

-- A check in front of others lets through what it and they let through.
reject_if_iff :
    {P Q : Type 0} (b : Bool) (r : Reason) (next : Option Reason)
    → (b ≡ false) ↔ P
    → (next ≡ none) ↔ Q
    → (reject_if b r next ≡ none) ↔ (P × Q)
reject_if_iff true r next h k =
    (λ e. absurd (ground arith), λ (p, q). let e = h.1 p in absurd (ground arith))
reject_if_iff false r next h k = (λ e. (h.0 refl, k.0 e), λ (p, q). k.1 q)

not_iff : {P : Type 0} (b : Bool) → (b ≡ true) ↔ P → (not b ≡ false) ↔ P
not_iff true h = (λ e. h.0 refl, λ p. refl)
not_iff false h = (λ e. absurd (ground arith), λ p. let e = h.1 p in absurd (ground arith))

limit_iff : (k n : ℕ) → (ltb k n ≡ false) ↔ (n ≤ k)
limit_iff k n = (λ h. ground arith, λ h. ground arith)

least_iff : (n : ℕ) → (ltb n tx_min_size ≡ false) ↔ (tx_min_size ≤ n)
least_iff n = (λ h. ground arith, λ h. ground arith)

count_iff : (n : ℕ) → (ltb n 1 ≡ false) ↔ (1 ≤ n)
count_iff n = (λ h. ground arith, λ h. ground arith)

loose_iff : (is : List IdxIn) → (is_coinbase is ≡ false) ↔ (¬ Coinbase is)
loose_iff is = (
  λ h c. let e = (is_coinbase_iff is).1 c in absurd (ground arith),
  λ n. elim (Bool-cases (is_coinbase is)) [
    | inl e ↦ absurd (n ((is_coinbase_iff is).0 e))
    | inr e ↦ e
  ],
)

check_scriptsigs_iff :
    {Q : Type 0} (is : List IdxIn) (next : Option Reason)
    → All (λ i. All Byte i.scriptsig) is
    → (next ≡ none) ↔ Q
    → (check_scriptsigs is next ≡ none) ↔ (All StandardIn is × Q)
unfolding check_scriptsigs
check_scriptsigs_iff [] next bytes k = (λ h. (tt, k.0 h), λ h. k.1 h.1)
check_scriptsigs_iff (i ∷ is) next bytes k =
    let pushes = script_push_only_iff i.scriptsig bytes.0 in
    let (there, back) =
      reject_if_iff (ltb tx_max_scriptsig (length i.scriptsig)) Reason.scriptsig_too_large _
        (limit_iff tx_max_scriptsig (length i.scriptsig))
        (reject_if_iff (not (script_push_only i.scriptsig)) Reason.not_push_only _
          (not_iff (script_push_only i.scriptsig) pushes)
          (check_scriptsigs_iff is next bytes.1 k)) in
    (
      λ h. let (small, (push, (rest, q))) = there h in (((small, push), rest), q),
      λ (((small, push), rest), q). back (small, (push, (rest, q))),
    )

-- A view whose scripts are bytes passes the checks exactly when it is standard: it has an input and
-- an output, it is no coinbase, no two inputs spend one output, each input script only pushes and
-- is within the limit, the output values add up to the money range at most, and each output is a
-- payee above the dust limit or a carrier that is relayed.
pub check_tx_iff : (tx : IdxTx) → BytesTx tx → (check_tx tx ≡ none) ↔ StandardTx tx
unfolding check_tx
check_tx_iff tx bytes =
    let (there, back) =
      reject_if_iff (ltb (length tx.ins) 1) Reason.no_inputs _ (count_iff (length tx.ins)) (
        reject_if_iff (ltb (length tx.outs) 1) Reason.no_outputs _ (count_iff (length tx.outs)) (
          reject_if_iff (is_coinbase tx.ins) Reason.coinbase _ (loose_iff tx.ins) (
            reject_if_iff (duplicate_prevout tx.ins) Reason.duplicate_input _
              (duplicate_prevout_iff tx.ins)
              (check_scriptsigs_iff tx.ins (check_outs tx.outs 0) bytes.ins
                (check_outs_iff tx.outs 0 bytes.outs (omega arith)))))) in
    (
      λ h.
          let (i, (o, (l, (d, (s, (m, t)))))) = there h in
          record {
            some_in = i;
            some_out = o;
            loose = l;
            distinct = d;
            scripts = s;
            money = omega arith;
            templates = t;
          },
      λ st. back (
        st.some_in,
        (
          st.some_out,
          (st.loose, (st.distinct, (st.scripts, (omega (arith, st.money), st.templates)))),
        ),
      ),
    )

-- The bytes of a transaction whose fields fit their widths and whose scripts are bytes pass exactly
-- when their number is in range and the transaction is standard: it has an input and an output, it
-- is no coinbase, no two inputs spend one output, each input script is a sequence of pushes within
-- the limit, the output values add up to the money range at most, and each output pays to the hash
-- of a key or of a script by its template and is not dust, or is a carrier that is relayed.
pub txcheck_stateless_iff :
    (sha256 : List ℕ → ℕ) (t : WireTx) (f : TxFits t)
    → BytesTx (view_of t f sha256)
    → (txcheck_stateless sha256 (serialize t) ≡ none) ↔ (
        (tx_min_size ≤ length (serialize t))
        × (length (serialize t) ≤ tx_max_size)
        × StandardTx (view_of t f sha256))
unfolding txcheck_stateless
txcheck_stateless_iff sha256 t f bytes = rw (idx_tx_parse-serialize t f sha256) (
    let (there, back) =
      reject_if_iff (ltb (length (serialize t)) tx_min_size) Reason.too_small _
        (least_iff (length (serialize t)))
        (reject_if_iff (ltb tx_max_size (length (serialize t))) Reason.too_large _
          (limit_iff tx_max_size (length (serialize t)))
          (check_tx_iff (view_of t f sha256) bytes)) in
    (λ h. let (a, (b, c)) = there h in (a, b, c), λ (a, b, c). back (a, (b, c))))
