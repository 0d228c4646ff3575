-- ===== src/Relay/Mempool/Count.antt =====
-- The number of entries in the tables of src/mempool.c.
use namespace_indexer.Common.{
  ℕ, zero, suc, ◌+◌, ◌<◌, ◌≤◌, ◌≡◌, refl, ap, sym, ◌∙◌, Bool, false, List, [], ◌∷◌, some, ◌==◌,
  arith, length, length-append, Bool-cases, inl, inr,
}
use namespace_indexer.Relay.Chains.{Table, put_chain, find_first, unlink_first}
use namespace_indexer.Relay.Mempool.{
  buckets, MpEntry, Pool, tx_h, has_txid, find_entry, remove_entry, chains, link_entry,
}

pub no_entries : (n : ℕ) → length (chains n (λ b. [])) ≡ 0
unfolding chains
no_entries zero = refl
no_entries (suc n) =
    let rest = no_entries n in let size = length-append (chains n (λ b. [])) [] in omega arith

-- Other chains than that of the bucket count the same.
chains_past :
    (n b : ℕ) (c : List MpEntry) (t : Table MpEntry)
    → n ≤ b
    → length (chains n (put_chain b c t)) ≡ length (chains n t)
unfolding chains
chains_past zero b c t h = refl
chains_past (suc n) b c t h =
    let rest = chains_past n b c t (omega arith) in
    let size = length-append (chains n (put_chain b c t)) (put_chain b c t n) in
    let size' = length-append (chains n t) (t n) in
    let same : put_chain b c t n ≡ t n = rw (let e : (n == b) ≡ false = ground arith in e) refl in
    let equal = ap length same in omega arith

chains_put :
    (n b : ℕ) (c : List MpEntry) (t : Table MpEntry)
    → b < n
    → length (chains n (put_chain b c t)) + length (t b) ≡ length (chains n t) + length c
unfolding chains
chains_put zero b c t h = absurd (omega arith)
chains_put (suc n) b c t h =
    let size = length-append (chains n (put_chain b c t)) (put_chain b c t n) in
    let size' = length-append (chains n t) (t n) in
    elim (Bool-cases (n == b)) [
      | inl e ↦
          let here : n ≡ b = ground arith in
          let last = ap length (let k : put_chain b c t n ≡ c = rw e refl in k) in
          let rest = chains_past n b c t (omega arith) in
          let own = ap (λ k. length (t k)) here in omega arith
      | inr e ↦
          let last = ap length (let k : put_chain b c t n ≡ t n = rw e refl in k) in
          let rest = chains_put n b c t (ground arith) in omega arith
    ]

length-unlink_first :
    {A : Type 0} (f : A → Bool) (xs : List A) (a : A)
    → find_first f xs ≡ some a
    → suc (length (unlink_first f xs)) ≡ length xs
unfolding find_first unlink_first
length-unlink_first f [] a h = absurd (ground arith)
length-unlink_first f (x ∷ xs) a h = elim (Bool-cases (f x)) [
  | inl e ↦ rw e refl
  | inr e ↦
      let k : find_first f (x ∷ xs) ≡ find_first f xs = rw e refl in
      rw e (ap suc (length-unlink_first f xs a (sym k ∙ h)))
]

module _ (e : MpEntry) (p : Pool) where
  low_bucket : tx_h e.txid < buckets
  unfolding tx_h
  low_bucket = omega arith

  pub removed_length :
      find_entry e.txid p ≡ some e
      → suc (length (chains buckets (remove_entry e p).tbucket)) ≡ length (chains buckets p.tbucket)
  unfolding remove_entry find_entry
  removed_length found =
      let low = low_bucket in
      let c = unlink_first (has_txid e.txid) (p.tbucket (tx_h e.txid)) in
      let less = length-unlink_first (has_txid e.txid) (p.tbucket (tx_h e.txid)) e found in
      let all = chains_put buckets (tx_h e.txid) c p.tbucket low in omega arith

  pub linked_length :
      length (chains buckets (link_entry e p).tbucket) ≡ suc (length (chains buckets p.tbucket))
  unfolding link_entry
  linked_length =
      let low = low_bucket in
      let all = chains_put buckets (tx_h e.txid) (e ∷ p.tbucket (tx_h e.txid)) p.tbucket low in
      omega arith
