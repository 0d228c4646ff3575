-- ===== src/Relay/Mempool/Apart.antt =====
-- Runs of the pool of src/mempool.c from its start.
use namespace_indexer.Common.{
  ℕ, zero, suc, ◌+◌, ◌≡◌, ◌≢◌, ◌≤◌, refl, sym, subst, ◌∙◌, true, List, [], ◌∷◌, Option, none, some,
  ◌==◌, ltb, if-elim, arith, All, All-imp, length, Bool-cases, Option-cases, inl, inr, OnSome,
}
use namespace_indexer.Chain.Tx.{IdxTx}
use namespace_indexer.Relay.Chains.{find_first, Distinct}
use namespace_indexer.Relay.Mempool.{
  has_txid, max_txs, chains, buckets, expiry_sec, MpEntry, Pool, find_entry, owner_link,
  prevout_owner, remove_entry, empty_pool, remove_found, remove_owners, mempool_on_confirmed_tx,
  sweep_chain, sweep_upto, mempool_sweep, mempool_reset, mempool_note_seen, mempool_accept,
}
use namespace_indexer.Relay.Mempool.Count.{no_entries}
use namespace_indexer.Relay.Mempool.Links.{contains}
use namespace_indexer.Relay.Mempool.Index.{
  Indexed, Indexed-apart, find_entry-txid, removed_other, remove_entry-Indexed,
}
use namespace_indexer.Relay.Mempool.Accept.{noted-Indexed, accept-Indexed}
use namespace_indexer.Relay.Mempool.Steps.{
  All-zip, chain-IsPooled, IsPooled, bucket-IsPooled, remove_found-Below,
}

pub owner-IsPooled : (v : List ℕ) (p : Pool) → Indexed p → OnSome (IsPooled p) (prevout_owner v p)
unfolding prevout_owner
owner-IsPooled v p i = elim (Option-cases (owner_link v p.pbucket)) [
  | inl e ↦
      let k : prevout_owner v p ≡ none = rw (e, prevout_owner) refl in
      subst (OnSome (IsPooled p)) (sym k) tt
  | inr (l, e) ↦
      let k : prevout_owner v p ≡ some l.entry = rw (e, prevout_owner) refl in
      subst (OnSome (IsPooled p)) (sym k) (i.sound v l e).0
]

remove_owners-Indexed : (vs : List (List ℕ)) (p : Pool) → Indexed p → Indexed (remove_owners vs p)
unfolding remove_owners
remove_owners-Indexed [] p i = i
remove_owners-Indexed (v ∷ vs) p i =
    remove_owners-Indexed vs (remove_found (prevout_owner v p) p)
      (remove_found-Below p (prevout_owner v p) i (owner-IsPooled v p i)).0

pub entry-IsPooled : (t : ℕ) (p : Pool) → OnSome (IsPooled p) (find_entry t p)
entry-IsPooled t p = elim (Option-cases (find_entry t p)) [
  | inl e ↦ rw e tt
  | inr (x, e) ↦
      let same = find_entry-txid t x p e in rw e (subst (λ u. find_entry u p ≡ some x) (sym same) e)
]

confirmed-Indexed :
    (t : ℕ) (tx : Option IdxTx) (p : Pool) → Indexed p → Indexed (mempool_on_confirmed_tx t tx p)
unfolding mempool_on_confirmed_tx
confirmed-Indexed t tx p i =
    if-elim Indexed (p.count == 0) p _ (λ _. i)
      (λ _.
        remove_owners-Indexed _ (remove_found (find_entry t p) p)
          (remove_found-Below p (find_entry t p) i (entry-IsPooled t p)).0)

-- The entries of a chain have other txids than the one in front of them.
others_differ :
    (e : MpEntry) (es : List MpEntry) → Distinct has_txid (e ∷ es) → All (λ x. x.txid ≢ e.txid) es
others_differ e es d =
    All-imp _ _
      (λ x f same.
        let gone = d.0 x.txid (let k : (e.txid == x.txid) ≡ true = ground arith in k) in
        absurd (ground arith))
      es (chain-IsPooled es d.1)

sweep_chain-Indexed :
    (now : ℕ) (es : List MpEntry) (p : Pool)
    → Distinct has_txid es
    → All (IsPooled p) es
    → Indexed p
    → Indexed (sweep_chain now es p)
unfolding sweep_chain
sweep_chain-Indexed now [] p d a i = i
sweep_chain-Indexed now (e ∷ es) p d a i = elim (Bool-cases (ltb (e.added + expiry_sec) now)) [
  | inl old ↦ rw old (
      sweep_chain-Indexed now es (remove_entry e p) d.1
        (All-zip _ _ _ es (λ x f n. removed_other p i e a.0 x.txid n ∙ f) a.1
          (others_differ e es d))
        (remove_entry-Indexed p i e a.0))
  | inr young ↦ rw young (sweep_chain-Indexed now es p d.1 a.1 i)
]

sweep_upto-Indexed : (now n : ℕ) (p : Pool) → Indexed p → Indexed (sweep_upto now n p)
unfolding sweep_upto
sweep_upto-Indexed now zero p i = i
sweep_upto-Indexed now (suc n) p i =
    let j = sweep_upto-Indexed now n p i in
    let q = sweep_upto now n p in
    sweep_chain-Indexed now (q.tbucket n) q (j.entries n) (bucket-IsPooled q j n) j

sweep-Indexed : (now : ℕ) (p : Pool) → Indexed p → Indexed (mempool_sweep now p)
unfolding mempool_sweep
sweep-Indexed now p i =
    if-elim Indexed (p.count == 0) p _ (λ _. i) (λ _. sweep_upto-Indexed now buckets p i)

reset-Indexed : (p : Pool) → Indexed (mempool_reset p)
unfolding mempool_reset find_entry owner_link find_first
reset-Indexed p = record {
  entries = λ b. tt;
  links = λ b. tt;
  home = λ b. tt;
  few = omega arith;
  counted = sym (no_entries buckets);
  sound = λ v l h. absurd (ground arith);
  complete = λ t e h. absurd (ground arith);
}

-- The calls of the pool.
pub data Call : Type 0 where
  accept : (now : ℕ) (raw : List ℕ) → Call
  note : (txid : ℕ) → Call
  confirmed : (txid : ℕ) (tx : Option IdxTx) → Call
  sweep : (now : ℕ) → Call
  reset : Call

unfoldable pub call : (List ℕ → ℕ) → Call → Pool → Pool
unfolding mempool_accept mempool_note_seen mempool_on_confirmed_tx mempool_sweep mempool_reset
call sha256 (Call.accept now raw) p = (mempool_accept sha256 now raw p).pool
call sha256 (Call.note t) p = mempool_note_seen t p
call sha256 (Call.confirmed t tx) p = mempool_on_confirmed_tx t tx p
call sha256 (Call.sweep now) p = mempool_sweep now p
call sha256 Call.reset p = mempool_reset p

unfoldable pub run : (List ℕ → ℕ) → List Call → Pool → Pool
unfolding call
run sha256 [] p = p
run sha256 (c ∷ cs) p = run sha256 cs (call sha256 c p)

call-Indexed : (sha256 : List ℕ → ℕ) (c : Call) (p : Pool) → Indexed p → Indexed (call sha256 c p)
unfolding call mempool_note_seen
call-Indexed sha256 (Call.accept now raw) p i = accept-Indexed sha256 now raw p i
call-Indexed sha256 (Call.note t) p i = noted-Indexed t p i
call-Indexed sha256 (Call.confirmed t tx) p i = confirmed-Indexed t tx p i
call-Indexed sha256 (Call.sweep now) p i = sweep-Indexed now p i
call-Indexed sha256 Call.reset p i = reset-Indexed p

pub run-Indexed :
    (sha256 : List ℕ → ℕ) (cs : List Call) (p : Pool) → Indexed p → Indexed (run sha256 cs p)
unfolding run
run-Indexed sha256 [] p i = i
run-Indexed sha256 (c ∷ cs) p i =
    run-Indexed sha256 cs (call sha256 c p) (call-Indexed sha256 c p i)

pub empty_pool-Indexed : Indexed empty_pool
unfolding mempool_reset
empty_pool-Indexed = reset-Indexed empty_pool

-- After any calls from the empty pool, two entries that are found and that spend one output are one
-- entry.
pub run-apart :
    (sha256 : List ℕ → ℕ) (cs : List Call) (t u : ℕ) (e x : MpEntry) (v : List ℕ)
    → find_entry t (run sha256 cs empty_pool) ≡ some e
    → find_entry u (run sha256 cs empty_pool) ≡ some x
    → contains v e.prev ≡ true
    → contains v x.prev ≡ true
    → e ≡ x
run-apart sha256 cs t u e x v =
    Indexed-apart (run sha256 cs empty_pool) t u e x v
      (run-Indexed sha256 cs empty_pool empty_pool-Indexed)

-- After any calls from the empty pool, `count` is the number of entries in the tables, and within
-- the limit.
pub run_count :
    (sha256 : List ℕ → ℕ) (cs : List Call)
    → let q = run sha256 cs empty_pool in
      (q.count ≡ length (chains buckets q.tbucket)) × (q.count ≤ max_txs)
run_count sha256 cs =
    let i = run-Indexed sha256 cs empty_pool empty_pool-Indexed in (i.counted, i.few)
