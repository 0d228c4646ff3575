-- ===== src/Relay/Mempool/Accept.antt =====
-- mempool_accept of src/mempool.c on an indexed pool.
use namespace_indexer.Common.{
  ℕ, suc, ◌≡◌, refl, ap, sym, subst, ◌∙◌, Bool, true, false, ◌||◌, List, [], ◌∷◌, Option, none,
  some, ltb, arith, bytes_eq, bytes_eq_iff, length, Bool-cases, Option-cases, inl, inr,
}
use namespace_indexer.Chain.Tx.{IdxIn, IdxTx, idx_tx_parse}
use namespace_indexer.Relay.TxCheck.{
  tx_min_size, tx_max_size, Reason, reject_if, is_coinbase, has_prevout, duplicate_prevout,
  check_tx, txcheck_stateless,
}
use namespace_indexer.Relay.Mempool.{
  MpPrev, Pool, find_entry, owner_link, prevout_owner, make_room, prevouts, any_owned, noted,
  admit_new, admit, note_refused, mempool_accept,
}
use namespace_indexer.Relay.Mempool.Links.{contains, NoRepeat}
use namespace_indexer.Relay.Mempool.Index.{Indexed, link_entry-Indexed}
use namespace_indexer.Relay.Mempool.Steps.{make_room-Below, make_room-Roomy}

contains-prevouts : (v : List ℕ) (is : List IdxIn) → contains v (prevouts is) ≡ has_prevout v is
unfolding has_prevout
contains-prevouts v [] = refl
contains-prevouts v (i ∷ is) = ap (bytes_eq v i.prevout ||◌) (contains-prevouts v is)

prevouts-NoRepeat : (is : List IdxIn) → duplicate_prevout is ≡ false → NoRepeat (prevouts is)
unfolding duplicate_prevout
prevouts-NoRepeat [] h = tt
prevouts-NoRepeat (i ∷ is) h =
    (contains-prevouts i.prevout is ∙ (ground arith), prevouts-NoRepeat is (ground arith))

reject_if-next :
    (b : Bool) (r : Reason) (next : Option Reason) → reject_if b r next ≡ none → next ≡ none
reject_if-next true r next h = absurd (ground arith)
reject_if-next false r next h = h

reject_if-test :
    (b : Bool) (r : Reason) (next : Option Reason) → reject_if b r next ≡ none → b ≡ false
reject_if-test true r next h = absurd (ground arith)
reject_if-test false r next h = refl

-- A transaction that passed the checks repeats no input.
check_tx-NoRepeat : (tx : IdxTx) → check_tx tx ≡ none → NoRepeat (prevouts tx.ins)
unfolding check_tx
check_tx-NoRepeat tx h = prevouts-NoRepeat tx.ins (
    reject_if-test (duplicate_prevout tx.ins) Reason.duplicate_input _ (
      reject_if-next (is_coinbase tx.ins) Reason.coinbase _ (
        reject_if-next (ltb (length tx.outs) 1) Reason.no_outputs _
          (reject_if-next (ltb (length tx.ins) 1) Reason.no_inputs _ h))))

owned_first :
    (w : List ℕ) (ws : List (List ℕ)) (p : Pool) (l : MpPrev)
    → owner_link w p.pbucket ≡ some l
    → any_owned (w ∷ ws) p ≡ true
unfolding any_owned prevout_owner
owned_first w ws p l h = rw (h, any_owned, prevout_owner) refl

owned_later :
    (w : List ℕ) (ws : List (List ℕ)) (p : Pool)
    → owner_link w p.pbucket ≡ none
    → any_owned (w ∷ ws) p ≡ any_owned ws p
unfolding any_owned prevout_owner
owned_later w ws p h = rw (h, any_owned, prevout_owner) refl

unowned :
    (vs : List (List ℕ)) (p : Pool)
    → any_owned vs p ≡ false
    → (v : List ℕ) → contains v vs ≡ true
    → owner_link v p.pbucket ≡ none
unowned [] p h v c = absurd (ground arith)
unowned (w ∷ ws) p h v c = elim (Option-cases (owner_link w p.pbucket)) [
  | inr (l, e) ↦ let k = owned_first w ws p l e in absurd (ground arith)
  | inl e ↦ elim (Bool-cases (bytes_eq v w)) [
    | inl same ↦ subst (λ u. owner_link u p.pbucket ≡ none) (sym ((bytes_eq_iff v w).0 same)) e
    | inr other ↦ unowned ws p (sym (owned_later w ws p e) ∙ h) v (ground arith)
  ]
]

-- The ring of seen txids is no part of the index.
pub noted-Indexed : (t : ℕ) (p : Pool) → Indexed p → Indexed (noted t p)
unfolding find_entry
noted-Indexed t p i = record {
  entries = i.entries;
  links = i.links;
  home = i.home;
  few = i.few;
  counted = i.counted;
  sound = i.sound;
  complete = i.complete;
}

module _ (now : ℕ) (raw : List ℕ) (tx : IdxTx) (n : NoRepeat (prevouts tx.ins)) where
  admit_new-Indexed :
      (p : Pool) → Indexed p → find_entry tx.txid p ≡ none → Indexed (admit_new now raw tx p).1
  unfolding admit_new
  admit_new-Indexed p i fresh = elim (Bool-cases (any_owned (prevouts tx.ins) p)) [
    | inl e ↦ rw e i
    | inr e ↦
        let (j, fewer) = make_room-Below (suc p.count) (length raw) p i in
        rw e (
          link_entry-Indexed (make_room (suc p.count) (length raw) p) j _
            (fewer.entries tx.txid fresh) n
            (λ v c. fewer.links v (unowned (prevouts tx.ins) p e v c))
            (let roomy = make_room-Roomy (suc p.count) (length raw) p i (omega arith) in
              ground arith))
  ]

  admit-Indexed : (p : Pool) → Indexed p → Indexed (admit now raw tx p).1
  unfolding admit
  admit-Indexed p i = elim (Option-cases (find_entry tx.txid p)) [
    | inl e ↦
        rw (e, admit)
          (admit_new-Indexed (noted tx.txid p) (noted-Indexed tx.txid p i) (unfold find_entry in e))
    | inr (old, e) ↦ rw (e, admit) (noted-Indexed tx.txid p i)
  ]

module _ (sha256 : List ℕ → ℕ) where
  passed :
      (raw : List ℕ) (tx : IdxTx)
      → txcheck_stateless sha256 raw ≡ none
      → idx_tx_parse sha256 raw ≡ some tx
      → check_tx tx ≡ none
  unfolding txcheck_stateless
  passed raw tx h e =
      let both =
        reject_if-next (ltb tx_max_size (length raw)) Reason.too_large _
          (reject_if-next (ltb (length raw) tx_min_size) Reason.too_small _ h) in
      subst
        (λ o.
          elim o as (λ _. Option Reason) [ none ↦ some Reason.malformed | some x ↦ check_tx x ]
          ≡ none)
        e both

  refused-Indexed : (raw : List ℕ) (p : Pool) → Indexed p → Indexed (note_refused sha256 raw p)
  unfolding note_refused
  refused-Indexed raw p i = elim (Option-cases (idx_tx_parse sha256 raw)) [
    | inl e ↦ rw (e, note_refused) i
    | inr (tx, e) ↦ rw (e, note_refused) (noted-Indexed tx.txid p i)
  ]

  pub accept-Indexed :
      (now : ℕ) (raw : List ℕ) (p : Pool)
      → Indexed p
      → Indexed (mempool_accept sha256 now raw p).pool
  unfolding mempool_accept
  accept-Indexed now raw p i = elim (Option-cases (txcheck_stateless sha256 raw)) [
    | inr (why, e) ↦ rw (e, mempool_accept) (refused-Indexed raw p i)
    | inl e ↦ elim (Option-cases (idx_tx_parse sha256 raw)) [
      | inl k ↦ rw (e, k, mempool_accept) i
      | inr (tx, k) ↦
          rw (e, k, mempool_accept)
            (admit-Indexed now raw tx (check_tx-NoRepeat tx (passed raw tx e k)) p i)
    ]
  ]
