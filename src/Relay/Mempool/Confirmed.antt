-- ===== src/Relay/Mempool/Confirmed.antt =====
-- The pool of src/mempool.c after a transaction is confirmed.
use namespace_indexer.Common.{
  ℕ, ◌≡◌, refl, sym, subst, true, false, List, [], ◌∷◌, none, some, ◌==◌, arith, bytes_eq,
  bytes_eq_iff, Bool-cases, Option-cases, inl, inr,
}
use namespace_indexer.Chain.Tx.{IdxTx}
use namespace_indexer.Relay.Mempool.{
  MpEntry, MpPrev, Pool, find_entry, owner_link, prevout_owner, remove_entry, prevouts, empty_pool,
  remove_found, remove_owners, mempool_on_confirmed_tx,
}
use namespace_indexer.Relay.Mempool.Links.{contains, unlink_prevs_gone}
use namespace_indexer.Relay.Mempool.Count.{removed_length}
use namespace_indexer.Relay.Mempool.Index.{Indexed, find_entry-txid, removed_self, links_own}
use namespace_indexer.Relay.Mempool.Steps.{Below, Fewer-refl, Fewer-trans, remove_found-Below}
use namespace_indexer.Relay.Mempool.Apart.{
  Call, run, run-Indexed, owner-IsPooled, entry-IsPooled, empty_pool-Indexed,
}

owner_of :
    (v : List ℕ) (p : Pool) (l : MpPrev)
    → owner_link v p.pbucket ≡ some l
    → prevout_owner v p ≡ some l.entry
unfolding prevout_owner
owner_of v p l e = rw (e, prevout_owner) refl

no_owner : (v : List ℕ) (p : Pool) → owner_link v p.pbucket ≡ none → prevout_owner v p ≡ none
unfolding prevout_owner
no_owner v p e = rw (e, prevout_owner) refl

link_removed :
    (v : List ℕ) (p : Pool) (l : MpPrev)
    → Indexed p
    → owner_link v p.pbucket ≡ some l
    → owner_link v (remove_entry l.entry p).pbucket ≡ none
unfolding remove_entry
link_removed v p l i e =
    let (f, c) = i.sound v l e in
    unlink_prevs_gone l.entry.txid l.entry.prev v p.pbucket i.links (links_own p i l.entry f) c

owner_removed :
    (v : List ℕ) (p : Pool)
    → Indexed p
    → owner_link v (remove_found (prevout_owner v p) p).pbucket ≡ none
unfolding remove_found
owner_removed v p i = elim (Option-cases (owner_link v p.pbucket)) [
  | inl e ↦ subst (λ o. owner_link v (remove_found o p).pbucket ≡ none) (sym (no_owner v p e)) e
  | inr (l, e) ↦
      subst (λ o. owner_link v (remove_found o p).pbucket ≡ none) (sym (owner_of v p l e))
        (link_removed v p l i e)
]

remove_owners-Below : (vs : List (List ℕ)) (p : Pool) → Indexed p → Below p (remove_owners vs p)
unfolding remove_owners
remove_owners-Below [] p i = (i, Fewer-refl p)
remove_owners-Below (v ∷ vs) p i =
    let q = remove_found (prevout_owner v p) p in
    let (j, f) = remove_found-Below p (prevout_owner v p) i (owner-IsPooled v p i) in
    let (k, g) = remove_owners-Below vs q j in (k, Fewer-trans p q (remove_owners vs q) f g)

owners_removed :
    (vs : List (List ℕ)) (p : Pool)
    → Indexed p
    → (v : List ℕ) → contains v vs ≡ true
    → owner_link v (remove_owners vs p).pbucket ≡ none
unfolding remove_owners
owners_removed [] p i v c = absurd (ground arith)
owners_removed (w ∷ ws) p i v c =
    let q = remove_found (prevout_owner w p) p in
    let (j, f) = remove_found-Below p (prevout_owner w p) i (owner-IsPooled w p i) in
    let (k, g) = remove_owners-Below ws q j in
    elim (Bool-cases (bytes_eq v w)) [
      | inl e ↦ g.links v (
          subst (λ u. owner_link u q.pbucket ≡ none) (sym ((bytes_eq_iff v w).0 e))
            (owner_removed w p i))
      | inr e ↦ owners_removed ws q j v (ground arith)
    ]

entry_removed :
    (t : ℕ) (p : Pool) → Indexed p → find_entry t (remove_found (find_entry t p) p) ≡ none
unfolding remove_found
entry_removed t p i = elim (Option-cases (find_entry t p)) [
  | inl e ↦ subst (λ o. find_entry t (remove_found o p) ≡ none) (sym e) e
  | inr (x, e) ↦
      let same = find_entry-txid t x p e in
      let here = subst (λ u. find_entry u p ≡ some x) (sym same) e in
      subst (λ o. find_entry t (remove_found o p) ≡ none) (sym e)
        (subst (λ u. find_entry u (remove_entry x p) ≡ none) same (removed_self p i x here))
]

empty_find : (t : ℕ) (p : Pool) → Indexed p → p.count ≡ 0 → find_entry t p ≡ none
empty_find t p i h = elim (Option-cases (find_entry t p)) [
  | inl e ↦ e
  | inr (x, e) ↦
      let same = find_entry-txid t x p e in
      let size = removed_length x p (subst (λ u. find_entry u p ≡ some x) (sym same) e) in
      let all = i.counted in absurd (omega arith)
]

empty_owner : (v : List ℕ) (p : Pool) → Indexed p → p.count ≡ 0 → owner_link v p.pbucket ≡ none
empty_owner v p i h = elim (Option-cases (owner_link v p.pbucket)) [
  | inl e ↦ e
  | inr (l, e) ↦
      let f = (i.sound v l e).0 in let g = empty_find l.entry.txid p i h in absurd (ground arith)
]

-- Neither the transaction, nor an entry that spends one of the outputs, nor a link of one is left.
Cleared : ℕ → List (List ℕ) → Pool → Type 0
Cleared t vs q =
    (find_entry t q ≡ none)
    × ((u : ℕ) (e : MpEntry)
        → find_entry u q ≡ some e
        → (v : List ℕ) → contains v vs ≡ true
        → contains v e.prev ≡ false)
    × ((v : List ℕ) → contains v vs ≡ true → prevout_owner v q ≡ none)

-- An entry that spends an output is linked to it.
unlinked :
    (q : Pool)
    → Indexed q
    → (v : List ℕ) → owner_link v q.pbucket ≡ none
    → (u : ℕ) (e : MpEntry) → find_entry u q ≡ some e
    → contains v e.prev ≡ false
unlinked q i v free u e found = elim (Bool-cases (contains v e.prev)) [
  | inl c ↦ let (l, k, _) = i.complete u e found v c in absurd (ground arith)
  | inr c ↦ c
]

unlinked-Cleared :
    (t : ℕ) (vs : List (List ℕ)) (q : Pool)
    → Indexed q
    → find_entry t q ≡ none
    → ((v : List ℕ) → contains v vs ≡ true → owner_link v q.pbucket ≡ none)
    → Cleared t vs q
unfolding Cleared
unlinked-Cleared t vs q i gone free =
    (gone, (λ u e found v c. unlinked q i v (free v c) u e found), (λ v c. no_owner v q (free v c)))

confirmed-Cleared :
    (t : ℕ) (tx : IdxTx) (p : Pool)
    → Indexed p
    → Cleared t (prevouts tx.ins) (mempool_on_confirmed_tx t (some tx) p)
unfolding mempool_on_confirmed_tx
confirmed-Cleared t tx p i = elim (Bool-cases (p.count == 0)) [
  | inl e ↦
      let h : p.count ≡ 0 = ground arith in
      rw e
        (unlinked-Cleared t (prevouts tx.ins) p i (empty_find t p i h) λ v c. empty_owner v p i h)
  | inr e ↦
      let q = remove_found (find_entry t p) p in
      let (j, f) = remove_found-Below p (find_entry t p) i (entry-IsPooled t p) in
      let (k, g) = remove_owners-Below (prevouts tx.ins) q j in
      rw e (
        unlinked-Cleared t (prevouts tx.ins) (remove_owners (prevouts tx.ins) q) k
          (g.entries t (entry_removed t p i)) (owners_removed (prevouts tx.ins) q j))
]

-- After any calls from the empty pool, a confirmed transaction is not found in the pool that it
-- leaves, no entry that is found there spends an output that it spends, and no such output has an
-- owner in the index.
pub confirmed-gone :
    (sha256 : List ℕ → ℕ) (cs : List Call) (t : ℕ) (tx : IdxTx)
    → let q = mempool_on_confirmed_tx t (some tx) (run sha256 cs empty_pool) in
      (find_entry t q ≡ none)
      × ((u : ℕ) (e : MpEntry)
          → find_entry u q ≡ some e
          → (v : List ℕ) → contains v (prevouts tx.ins) ≡ true
          → contains v e.prev ≡ false)
      × ((v : List ℕ) → contains v (prevouts tx.ins) ≡ true → prevout_owner v q ≡ none)
unfolding Cleared
confirmed-gone sha256 cs t tx =
    confirmed-Cleared t tx (run sha256 cs empty_pool)
      (run-Indexed sha256 cs empty_pool empty_pool-Indexed)
