-- ===== src/Relay/Mempool/Steps.antt =====
-- The operations of src/mempool.c on an indexed pool.
use namespace_indexer.Common.{
  ℕ, zero, suc, ◌+◌, ◌≡◌, ◌≤◌, ◌<◌, ◌⊎◌, refl, ap, sym, subst, ◌∙◌, true, ◌||◌, List, [], ◌∷◌, ◌++◌,
  Option, none, some, ◌==◌, ltb, leb, if◌then◌else◌, if-elim, arith, All, All-imp, length,
  Bool-cases, inl, inr, OnSome,
}
use namespace_indexer.Relay.Chains.{find_first, Distinct}
use namespace_indexer.Relay.Mempool.{
  max_txs, max_bytes, buckets, MpEntry, Pool, has_txid, find_entry, owner_link, unlink_prevs,
  remove_entry, oldest_in, chains, evict_oldest, make_room, remove_found,
}
use namespace_indexer.Relay.Mempool.Links.{contains, unlink_prevs_other, unlink_prevs_gone}
use namespace_indexer.Relay.Mempool.Index.{Indexed, removed_other, links_own, remove_entry-Indexed}

-- What is not in the one pool is not in the other.
pub record Fewer (p q : Pool) : Type 0 where
  pub entries : (t : ℕ) → find_entry t p ≡ none → find_entry t q ≡ none
  pub links : (v : List ℕ) → owner_link v p.pbucket ≡ none → owner_link v q.pbucket ≡ none

pub Fewer-refl : (p : Pool) → Fewer p p
Fewer-refl p = record { entries = λ t h. h; links = λ v h. h }

pub Fewer-trans : (p q r : Pool) → Fewer p q → Fewer q r → Fewer p r
Fewer-trans p q r f g = record {
  entries = λ t h. g.entries t (f.entries t h);
  links = λ v h. g.links v (f.links v h);
}

-- Indexed, and with nothing more than the pool p.
abbrev pub Below : Pool → Pool → Type 0
Below p q = Indexed q × Fewer p q

module _ (p : Pool) (i : Indexed p) (e : MpEntry) (found : find_entry e.txid p ≡ some e) where
  fewer_entries : (t : ℕ) → find_entry t p ≡ none → find_entry t (remove_entry e p) ≡ none
  fewer_entries t h =
      removed_other p i e found t (λ same.
        let g : find_entry t p ≡ some e = subst (λ u. find_entry u p ≡ some e) (sym same) found in
        absurd (ground arith))
      ∙ h

  fewer_links :
      (v : List ℕ)
      → owner_link v p.pbucket ≡ none
      → owner_link v (unlink_prevs e.txid e.prev p.pbucket) ≡ none
  fewer_links v h = elim (Bool-cases (contains v e.prev)) [
    | inl spent ↦ unlink_prevs_gone e.txid e.prev v p.pbucket i.links (links_own p i e found) spent
    | inr other ↦ unlink_prevs_other e.txid e.prev v p.pbucket other ∙ h
  ]

  remove-Below : Below p (remove_entry e p)
  unfolding remove_entry
  remove-Below =
      (remove_entry-Indexed p i e found, record { entries = fewer_entries; links = fewer_links })

-- The entries of the table are found under their txids.
abbrev pub IsPooled : Pool → MpEntry → Type 0
IsPooled p e = find_entry e.txid p ≡ some e

pub chain-IsPooled :
    (xs : List MpEntry)
    → Distinct has_txid xs
    → All (λ e. find_first (has_txid e.txid) xs ≡ some e) xs
unfolding find_first
chain-IsPooled [] d = tt
chain-IsPooled (x ∷ xs) d = (
  rw (let k : (x.txid == x.txid) ≡ true = ground arith in k) refl,
  All-imp _ _ later xs (chain-IsPooled xs d.1),
)
  where
    later :
        (e : MpEntry)
        → find_first (has_txid e.txid) xs ≡ some e
        → (if has_txid e.txid x then some x else find_first (has_txid e.txid) xs) ≡ some e
    later e h = elim (Bool-cases (has_txid e.txid x)) [
      | inl hit ↦ let gone = d.0 e.txid hit in absurd (ground arith)
      | inr miss ↦ rw miss h
    ]

pub All-zip :
    {A : Type 0} (P Q R : A → Type 0) (xs : List A)
    → ((a : A) → P a → Q a → R a)
    → All P xs
    → All Q xs
    → All R xs
All-zip P Q R [] f h k = tt
All-zip P Q R (x ∷ xs) f h k = (f x h.0 k.0, All-zip P Q R xs f h.1 k.1)

All-append : {A : Type 0} (P : A → Type 0) (xs ys : List A) → All P xs → All P ys → All P (xs ++ ys)
All-append P [] ys h k = k
All-append P (x ∷ xs) ys h k = (h.0, All-append P xs ys h.1 k)

pub bucket-IsPooled : (p : Pool) → Indexed p → (b : ℕ) → All (IsPooled p) (p.tbucket b)
unfolding find_entry
bucket-IsPooled p i b =
    All-zip _ _ _ (p.tbucket b)
      (λ e h k. ap (λ c. find_first (has_txid e.txid) (p.tbucket c)) h ∙ k) (i.home b)
      (chain-IsPooled (p.tbucket b) (i.entries b))

chains-IsPooled : (p : Pool) → Indexed p → (n : ℕ) → All (IsPooled p) (chains n p.tbucket)
unfolding chains
chains-IsPooled p i zero = tt
chains-IsPooled p i (suc n) =
    All-append (IsPooled p) (chains n p.tbucket) (p.tbucket n) (chains-IsPooled p i n)
      (bucket-IsPooled p i n)

oldest_in-All :
    (P : MpEntry → Type 0) (xs : List MpEntry) (old : Option MpEntry)
    → All P xs
    → OnSome P old
    → OnSome P (oldest_in xs old)
unfolding oldest_in
oldest_in-All P [] old h k = k
oldest_in-All P (x ∷ xs) none h k = oldest_in-All P xs (some x) h.1 h.0
oldest_in-All P (x ∷ xs) (some o) h k =
    oldest_in-All P xs (some (if ltb x.added o.added then x else o)) h.1
      (if-elim P (ltb x.added o.added) x o (λ _. h.0) (λ _. k))

pub remove_found-Below :
    (p : Pool) (o : Option MpEntry) → Indexed p → OnSome (IsPooled p) o → Below p (remove_found o p)
unfolding remove_found
remove_found-Below p none i h = (i, Fewer-refl p)
remove_found-Below p (some e) i h = remove-Below p i e h

evict_same :
    (p : Pool) → evict_oldest p ≡ remove_found (oldest_in (chains buckets p.tbucket) none) p
unfolding evict_oldest remove_found
evict_same p =
    elim (oldest_in (chains buckets p.tbucket) none)
      as (λ o.
        elim o as (λ _. Pool) [ none ↦ p | some old ↦ remove_entry old p ] ≡ remove_found o p) [
          | none ↦ refl
          | some old ↦ refl
        ]

evict-Below : (p : Pool) → Indexed p → Below p (evict_oldest p)
evict-Below p i =
    subst (Below p) (sym (evict_same p)) (
      remove_found-Below p _ i (oldest_in-All (IsPooled p) _ none (chains-IsPooled p i buckets) tt))

pub make_room-Below : (fuel len : ℕ) (p : Pool) → Indexed p → Below p (make_room fuel len p)
unfolding make_room
make_room-Below zero len p i = (i, Fewer-refl p)
make_room-Below (suc fuel) len p i =
    let (j, f) = evict-Below p i in
    let (k, g) = make_room-Below fuel len (evict_oldest p) j in
    if-elim (Below p) (leb max_txs p.count || ltb max_bytes (p.bytes + len)) _ p
      (λ _.
        if-elim (Below p) (p.count == 0) p _ (λ _. (i, Fewer-refl p))
          (λ _. (k, Fewer-trans p (evict_oldest p) (make_room fuel len (evict_oldest p)) f g)))
      (λ _. (i, Fewer-refl p))

-- The test of the loop fails, or the pool is empty.
abbrev pub Roomy : ℕ → Pool → Type 0
Roomy len q = ((q.count < max_txs) × (q.bytes + len ≤ max_bytes)) ⊎ (q.count ≡ 0)

oldest_kept : (xs : List MpEntry) (o : MpEntry) → (e : MpEntry) × (oldest_in xs (some o) ≡ some e)
unfolding oldest_in
oldest_kept [] o = (o, refl)
oldest_kept (x ∷ xs) o = oldest_kept xs (if ltb x.added o.added then x else o)

oldest_some : (xs : List MpEntry) → 1 ≤ length xs → (e : MpEntry) × (oldest_in xs none ≡ some e)
unfolding oldest_in
oldest_some [] h = absurd (omega arith)
oldest_some (x ∷ xs) h = oldest_kept xs x

evict_count : (p : Pool) → Indexed p → 1 ≤ p.count → suc (evict_oldest p).count ≡ p.count
unfolding remove_found remove_entry
evict_count p i h =
    let size = i.counted in
    let (e, k) = oldest_some (chains buckets p.tbucket) (omega arith) in
    let same : evict_oldest p ≡ remove_entry e p = evict_same p ∙ ap (λ o. remove_found o p) k in
    ap (λ q. suc q.count) same ∙ (omega arith)

-- In an indexed pool, on more fuel than its count, the loop ends by its own test: there is room for
-- the transaction, or the pool is empty.
pub make_room-Roomy :
    (fuel len : ℕ) (p : Pool) → Indexed p → p.count < fuel → Roomy len (make_room fuel len p)
unfolding make_room
make_room-Roomy zero len p i h = absurd (omega arith)
make_room-Roomy (suc fuel) len p i h =
    if-elim (Roomy len) (leb max_txs p.count || ltb max_bytes (p.bytes + len)) _ p
      (λ _.
        if-elim (Roomy len) (p.count == 0) p _ (λ e. inr (ground arith))
          (λ e.
            let less : 1 ≤ p.count = ground arith in
            let down = evict_count p i less in
            make_room-Roomy fuel len (evict_oldest p) (evict-Below p i).0 (omega arith)))
      (λ e. inl (ground arith, ground arith))
