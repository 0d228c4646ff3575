-- ===== src/Relay/Mempool/Index.antt =====
-- The index of spent outputs in src/mempool.c, against the entries.
use namespace_indexer.Common.{
  ℕ, ◌≡◌, ◌≢◌, refl, ap, sym, subst, ◌∙◌, Bool, true, false, List, [], ◌∷◌, none, some, ◌==◌, arith,
  All, bytes_eq_refl, Bool-cases, inl, inr, OnSome, length, ◌≤◌, ◌<◌,
}
use namespace_indexer.Relay.Chains.{
  Table, put_chain, find_first, unlink_first, find_first-hit, find_first-unlink_other, Distinct,
  Distinct-unlink_first, find_first-unlink_self,
}
use namespace_indexer.Relay.Mempool.{
  MpEntry, MpPrev, Pool, tx_h, has_txid, find_entry, owner_link, unlink_prevs, remove_entry,
  max_txs, buckets, chains, link_prevs, link_entry,
}
use namespace_indexer.Relay.Mempool.Count.{removed_length, linked_length}
use namespace_indexer.Relay.Mempool.Links.{
  contains, NoRepeat, DistinctLinks, put_here, put_chain-Distinct, find_put, LinkOf,
  unlink_prevs-Distinct, unlink_prevs_other, unlink_prevs_gone, link_prevs_other, link_prevs_hit,
  link_prevs-Distinct,
}

-- The link of an output leads to an entry of the pool that spends it, and each output that an entry
-- spends has a link to it; each chain has one element for a key, an entry is in its own bucket, and `count` is their number,
-- within its limit.
pub record Indexed (p : Pool) : Type 0 where
  pub entries : (b : ℕ) → Distinct has_txid (p.tbucket b)
  pub links : DistinctLinks p.pbucket
  pub home : (b : ℕ) → All (λ e. tx_h e.txid ≡ b) (p.tbucket b)
  pub few : p.count ≤ max_txs
  pub counted : p.count ≡ length (chains buckets p.tbucket)
  pub sound :
      (v : List ℕ) (l : MpPrev)
      → owner_link v p.pbucket ≡ some l
      → (find_entry l.entry.txid p ≡ some l.entry) × (contains v l.entry.prev ≡ true)
  pub complete :
      (t : ℕ) (e : MpEntry)
      → find_entry t p ≡ some e
      → (v : List ℕ) → contains v e.prev ≡ true
      → (l : MpPrev) × (owner_link v p.pbucket ≡ some l) × (l.entry ≡ e)

pub find_entry-txid : (t : ℕ) (e : MpEntry) (p : Pool) → find_entry t p ≡ some e → e.txid ≡ t
unfolding find_entry
find_entry-txid t e p h =
    let k = find_first-hit (has_txid t) (p.tbucket (tx_h t)) e h in ground arith

all_contained :
    (P : List ℕ → Type 0) (vs : List (List ℕ))
    → ((v : List ℕ) → contains v vs ≡ true → P v)
    → All P vs
all_contained P [] h = tt
all_contained P (v ∷ vs) h =
    (h v (rw (bytes_eq_refl v) refl), all_contained P vs λ w k. h w (ground arith))

other_txid : (t u : ℕ) (x : MpEntry) → t ≢ u → has_txid u x ≡ true → has_txid t x ≡ false
other_txid t u x d h = ground arith

put_chain-All :
    {A : Type 0} (P : ℕ → A → Type 0) (b : ℕ) (c : List A) (t : Table A)
    → ((k : ℕ) → All (P k) (t k))
    → All (P b) c
    → (k : ℕ) → All (P k) (put_chain b c t k)
put_chain-All P b c t a ac k = elim (Bool-cases (k == b)) [
  | inl e ↦ rw e (subst (λ u. All (P u) c) (let same : b ≡ k = ground arith in same) ac)
  | inr e ↦ rw e (a k)
]

unlink_first-All :
    {A : Type 0} (P : A → Type 0) (f : A → Bool) (xs : List A)
    → All P xs
    → All P (unlink_first f xs)
unfolding unlink_first
unlink_first-All P f [] a = tt
unlink_first-All P f (x ∷ xs) a = elim (Bool-cases (f x)) [
  | inl e ↦ rw e a.1
  | inr e ↦ rw e (a.0, unlink_first-All P f xs a.1)
]

module _ (p : Pool) (i : Indexed p) (e : MpEntry) where
  module _ (found : find_entry e.txid p ≡ some e) where
    pub removed_self : find_entry e.txid (remove_entry e p) ≡ none
    unfolding find_entry remove_entry
    removed_self =
        ap (find_first (has_txid e.txid)) (put_here (tx_h e.txid) _ p.tbucket)
        ∙ find_first-unlink_self has_txid (has_txid e.txid) e.txid e (p.tbucket (tx_h e.txid))
            (i.entries (tx_h e.txid)) found (let k : (e.txid == e.txid) ≡ true = ground arith in k)
            (λ x h. h)

    pub removed_other : (t : ℕ) → t ≢ e.txid → find_entry t (remove_entry e p) ≡ find_entry t p
    unfolding find_entry remove_entry
    removed_other t d = find_put (has_txid t) (tx_h e.txid) (tx_h t) _ p.tbucket λ same.
        find_first-unlink_other (has_txid e.txid) (has_txid t) (p.tbucket (tx_h e.txid))
          (λ x h. other_txid t e.txid x d h)
        ∙ ap (λ b. find_first (has_txid t) (p.tbucket b)) (sym same)

    pub links_own : All (λ v. LinkOf e.txid v p.pbucket) e.prev
    links_own = all_contained _ e.prev λ v h.
        let (l, o, same) = i.complete e.txid e found v h in
        subst (OnSome (λ l. l.entry.txid ≡ e.txid)) (sym o) (ap (λ x. x.txid) same)

    -- An output has a link after the removal only if it had that link, and the entry did not spend it.
    kept_link :
        (v : List ℕ) (l : MpPrev)
        → owner_link v (unlink_prevs e.txid e.prev p.pbucket) ≡ some l
        → (owner_link v p.pbucket ≡ some l) × (contains v e.prev ≡ false)
    kept_link v l h = elim (Bool-cases (contains v e.prev)) [
      | inl spent ↦
          let gone = unlink_prevs_gone e.txid e.prev v p.pbucket i.links links_own spent in
          absurd (ground arith)
      | inr other ↦ (sym (unlink_prevs_other e.txid e.prev v p.pbucket other) ∙ h, other)
    ]

    other_sound :
        (v : List ℕ) (l : MpPrev)
        → owner_link v (unlink_prevs e.txid e.prev p.pbucket) ≡ some l
        → (find_entry l.entry.txid (remove_entry e p) ≡ some l.entry)
          × (contains v l.entry.prev ≡ true)
    other_sound v l h =
        let (o, other) = kept_link v l h in
        let (f, c) = i.sound v l o in
        let apart : l.entry.txid ≢ e.txid = λ same.
          let g : find_entry e.txid p ≡ some l.entry =
            subst (λ t. find_entry t p ≡ some l.entry) same f in
          let one : l.entry ≡ e = ground arith in
          let c' : contains v e.prev ≡ true = subst (λ x. contains v x.prev ≡ true) one c in
          absurd (ground arith) in
        (removed_other l.entry.txid apart ∙ f, c)

    other_complete :
        (t : ℕ) (x : MpEntry)
        → find_entry t (remove_entry e p) ≡ some x
        → (v : List ℕ) → contains v x.prev ≡ true
        → (l : MpPrev) × (owner_link v (unlink_prevs e.txid e.prev p.pbucket) ≡ some l)
          × (l.entry ≡ x)
    other_complete t x h v c =
        let apart : t ≢ e.txid = λ same.
          let g : find_entry t (remove_entry e p) ≡ none =
            subst (λ u. find_entry u (remove_entry e p) ≡ none) (sym same) removed_self in
          absurd (ground arith) in
        let f = sym (removed_other t apart) ∙ h in
        let (l, o, one) = i.complete t x f v c in
        elim (Bool-cases (contains v e.prev)) [
          | inl spent ↦
              let (l', o', one') = i.complete e.txid e found v spent in
              let link : l ≡ l' = ground arith in
              let same : x ≡ e = sym one ∙ ap (λ k. k.entry) link ∙ one' in
              absurd (apart (sym (find_entry-txid t x p f) ∙ ap (λ k. k.txid) same))
          | inr other ↦ (l, unlink_prevs_other e.txid e.prev v p.pbucket other ∙ o, one)
        ]

    pub remove_entry-Indexed : Indexed (remove_entry e p)
    unfolding remove_entry
    remove_entry-Indexed = record {
      entries = put_chain-Distinct has_txid (tx_h e.txid) _ p.tbucket i.entries (
          Distinct-unlink_first has_txid (has_txid e.txid) (p.tbucket (tx_h e.txid))
            (i.entries (tx_h e.txid)));
      few = let was = i.few in omega arith;
      counted = let size = removed_length e p found in let was = i.counted in omega arith;
      links = unlink_prevs-Distinct e.txid e.prev p.pbucket i.links;
      home =
          put_chain-All (λ b x. tx_h x.txid ≡ b) (tx_h e.txid) _ p.tbucket i.home
            (unlink_first-All _ (has_txid e.txid) (p.tbucket (tx_h e.txid)) (i.home (tx_h e.txid)));
      sound = other_sound;
      complete = other_complete;
    }

  module _ (fresh : find_entry e.txid p ≡ none) (once : NoRepeat e.prev)
      (free : (v : List ℕ) → contains v e.prev ≡ true → owner_link v p.pbucket ≡ none)
      (room : p.count < max_txs) where
    pub linked_self : find_entry e.txid (link_entry e p) ≡ some e
    unfolding find_entry link_entry find_first
    linked_self =
        ap (find_first (has_txid e.txid)) (put_here (tx_h e.txid) _ p.tbucket)
        ∙ rw (let k : (e.txid == e.txid) ≡ true = ground arith in k) refl

    pub linked_other : (t : ℕ) → t ≢ e.txid → find_entry t (link_entry e p) ≡ find_entry t p
    unfolding find_entry link_entry find_first
    linked_other t d = find_put (has_txid t) (tx_h e.txid) (tx_h t) _ p.tbucket λ same.
        rw (let k : (e.txid == t) ≡ false = ground arith in k)
          (ap (λ b. find_first (has_txid t) (p.tbucket b)) (sym same))

    link_sound :
        (v : List ℕ) (l : MpPrev)
        → owner_link v (link_prevs e e.prev p.pbucket) ≡ some l
        → (find_entry l.entry.txid (link_entry e p) ≡ some l.entry)
          × (contains v l.entry.prev ≡ true)
    link_sound v l h = elim (Bool-cases (contains v e.prev)) [
      | inl spent ↦
          let k = link_prevs_hit e e.prev v p.pbucket spent in
          let one : record { prevout = v; entry = e } ≡ l = ground arith in
          subst
            (λ x.
              (find_entry x.entry.txid (link_entry e p) ≡ some x.entry)
              × (contains v x.entry.prev ≡ true))
            one (linked_self, spent)
      | inr other ↦
          let (f, c) = i.sound v l (sym (link_prevs_other e e.prev v p.pbucket other) ∙ h) in
          let apart : l.entry.txid ≢ e.txid = λ same.
            let g : find_entry e.txid p ≡ some l.entry =
              subst (λ t. find_entry t p ≡ some l.entry) same f in
            absurd (ground arith) in
          (linked_other l.entry.txid apart ∙ f, c)
    ]

    link_complete :
        (t : ℕ) (x : MpEntry)
        → find_entry t (link_entry e p) ≡ some x
        → (v : List ℕ) → contains v x.prev ≡ true
        → (l : MpPrev) × (owner_link v (link_prevs e e.prev p.pbucket) ≡ some l) × (l.entry ≡ x)
    link_complete t x h v c = elim (Bool-cases (t == e.txid)) [
      | inl here ↦
          let g : find_entry t (link_entry e p) ≡ some e =
            subst (λ u. find_entry u (link_entry e p) ≡ some e)
              (let same : e.txid ≡ t = ground arith in same) linked_self in
          let one : e ≡ x = ground arith in
          (
            record { prevout = v; entry = e },
            link_prevs_hit e e.prev v p.pbucket (subst (λ k. contains v k.prev ≡ true) (sym one) c),
            one,
          )
      | inr there ↦
          let f = sym (linked_other t (λ same. absurd (ground arith))) ∙ h in
          let (l, o, one) = i.complete t x f v c in
          elim (Bool-cases (contains v e.prev)) [
            | inl spent ↦ let k = free v spent in absurd (ground arith)
            | inr other ↦ (l, link_prevs_other e e.prev v p.pbucket other ∙ o, one)
          ]
    ]

    pub link_entry-Indexed : Indexed (link_entry e p)
    unfolding link_entry find_entry
    link_entry-Indexed = record {
      entries = put_chain-Distinct has_txid (tx_h e.txid) _ p.tbucket i.entries (
        (λ k hit.
            subst (λ t. find_first (has_txid t) (p.tbucket (tx_h e.txid)) ≡ none)
              (let same : e.txid ≡ k = ground arith in same) fresh),
        i.entries (tx_h e.txid),
      );
      few = omega arith;
      counted = let size = linked_length e p in let was = i.counted in omega arith;
      links = link_prevs-Distinct e e.prev p.pbucket once (all_contained _ e.prev free) i.links;
      home =
          put_chain-All (λ b x. tx_h x.txid ≡ b) (tx_h e.txid) _ p.tbucket i.home
            (refl, i.home (tx_h e.txid));
      sound = link_sound;
      complete = link_complete;
    }

-- In an indexed pool no two entries spend one output.
pub Indexed-apart :
    (p : Pool) (t u : ℕ) (e x : MpEntry) (v : List ℕ)
    → Indexed p
    → find_entry t p ≡ some e
    → find_entry u p ≡ some x
    → contains v e.prev ≡ true
    → contains v x.prev ≡ true
    → e ≡ x
Indexed-apart p t u e x v i f g c d =
    let (l, o, one) = i.complete t e f v c in
    let (l', o', one') = i.complete u x g v d in
    let link : l ≡ l' = ground arith in sym one ∙ ap (λ k. k.entry) link ∙ one'
