-- ===== src/Relay/Mempool.antt =====
-- The pool of unconfirmed transactions: src/mempool.c. A table is a function from the bucket to its
-- chain. An entry does not change while it is linked, so a pointer to it is the entry itself, known
-- by its txid. The lock, allocation and the callback of mempool_scan are left out; what the
-- callback sees is a list.
pub mod Links
pub mod Index
pub mod Steps
pub mod Count
pub mod Accept
pub mod Apart
pub mod Confirmed
use namespace_indexer.Common.{
  ℕ, zero, suc, ◌+◌, ◌-◌, ◌*◌, ◌%◌, ◌^◌, ◌≡◌, Bool, true, false, not, ◌&&◌, ◌||◌, List, [], ◌∷◌,
  ◌++◌, Option, none, some, ltb, leb, ◌==◌, if◌then◌else◌, length, take, bytes_eq,
}
use Prim.Native.Nat.{bit_xor}
use namespace_indexer.Chain.Tx.{IdxIn, IdxTx, idx_tx_parse}
use namespace_indexer.Relay.TxCheck.{Reason, txcheck_stateless}
use namespace_indexer.Relay.Chains.{find_first, unlink_first, Table, put_chain}

abbrev pub max_txs : ℕ
max_txs = 5000

abbrev pub max_bytes : ℕ
max_bytes = 64 * 1024 * 1024

abbrev pub expiry_sec : ℕ
expiry_sec = 72 * 3600

abbrev pub buckets : ℕ
buckets = 8192

abbrev pub seen_ring : ℕ
seen_ring = 4096

pub record MpEntry : Type 0 where
  pub txid : ℕ
  pub raw : List ℕ
  pub added : ℕ
  pub prev : List (List ℕ)

pub record MpPrev : Type 0 where
  pub prevout : List ℕ
  pub entry : MpEntry

-- The ring of the txids that were seen last.
pub record Ring : Type 0 where
  pub slots : ℕ → ℕ
  pub head : ℕ
  pub n : ℕ

pub record Pool : Type 0 where
  pub tbucket : Table MpEntry
  pub pbucket : Table MpPrev
  pub count : ℕ
  pub bytes : ℕ
  pub seen : Ring

-- The two low bytes of the txid, masked.
unfoldable pub tx_h : ℕ → ℕ
tx_h txid = txid % 65536 % buckets

unfoldable pub fnv : List ℕ → ℕ → ℕ
fnv [] h = h
fnv (x ∷ xs) h = fnv xs (bit_xor h x * 16777619 % 2 ^ 32)

unfoldable pub pv_h : List ℕ → ℕ
unfolding fnv
pv_h p = fnv p 2166136261 % buckets

abbrev pub has_txid : ℕ → MpEntry → Bool
has_txid txid e = e.txid == txid

abbrev pub spends : List ℕ → MpPrev → Bool
spends prevout p = bytes_eq p.prevout prevout

unfoldable pub find_entry : ℕ → Pool → Option MpEntry
unfolding tx_h
find_entry txid p = find_first (has_txid txid) (p.tbucket (tx_h txid))

unfoldable pub owner_link : List ℕ → Table MpPrev → Option MpPrev
unfolding pv_h
owner_link prevout t = find_first (spends prevout) (t (pv_h prevout))

unfoldable pub prevout_owner : List ℕ → Pool → Option MpEntry
unfolding owner_link
prevout_owner prevout p = elim (owner_link prevout p.pbucket) [
  | none ↦ none
  | some l ↦ some l.entry
]

-- The links of the outputs that the entry spends are taken out of their chains.
unfoldable pub unlink_prevs : ℕ → List (List ℕ) → Table MpPrev → Table MpPrev
unfolding pv_h
unlink_prevs txid [] t = t
unlink_prevs txid (v ∷ vs) t =
    unlink_prevs txid vs
      (put_chain (pv_h v) (unlink_first (λ l. has_txid txid l.entry && spends v l) (t (pv_h v))) t)

-- `g_bytes` is a `size_t`, and the subtraction wraps around; `g_count` stops at 0 here.
unfoldable pub remove_entry : MpEntry → Pool → Pool
unfolding tx_h unlink_prevs
remove_entry e p = record p {
  tbucket =
      put_chain (tx_h e.txid) (unlink_first (has_txid e.txid) (p.tbucket (tx_h e.txid))) p.tbucket;
  pbucket = unlink_prevs e.txid e.prev p.pbucket;
  count = p.count - 1;
  bytes = (p.bytes + 2 ^ 64 - length e.raw) % 2 ^ 64;
}

-- The older of the best so far and the entries of a chain; a tie keeps the one that came first.
unfoldable pub oldest_in : List MpEntry → Option MpEntry → Option MpEntry
oldest_in [] old = old
oldest_in (e ∷ es) none = oldest_in es (some e)
oldest_in (e ∷ es) (some old) = oldest_in es (some (if ltb e.added old.added then e else old))

-- The chains of the first n buckets in their order.
unfoldable pub chains : ℕ → Table MpEntry → List MpEntry
chains zero t = []
chains (suc n) t = chains n t ++ t n

unfoldable pub evict_oldest : Pool → Pool
unfolding oldest_in chains remove_entry
evict_oldest p = elim (oldest_in (chains buckets p.tbucket) none) [
  | none ↦ p
  | some old ↦ remove_entry old p
]

unfoldable pub ring_has : ℕ → (ℕ → ℕ) → ℕ → Bool
ring_has zero slots txid = false
ring_has (suc i) slots txid = ring_has i slots txid || slots i == txid

unfoldable pub seen_locked : ℕ → Ring → Bool
unfolding ring_has
seen_locked txid r = ring_has r.n r.slots txid

unfoldable pub note_seen : ℕ → Ring → Ring
unfolding seen_locked
note_seen txid r = if seen_locked txid r then r else record {
  slots = λ i. if i == r.head then txid else r.slots i;
  head = (r.head + 1) % seen_ring;
  n = if ltb r.n seen_ring then r.n + 1 else r.n;
}

-- `while (g_count >= MEMPOOL_MAX_TXS || ...)`, on fuel.
unfoldable pub make_room : ℕ → ℕ → Pool → Pool
unfolding evict_oldest
make_room zero len p = p
make_room (suc fuel) len p =
    let next = make_room fuel len (evict_oldest p) in
    if leb max_txs p.count || ltb max_bytes (p.bytes + len)
    then (if p.count == 0 then p else next)
    else p

abbrev pub prevouts : List IdxIn → List (List ℕ)
prevouts [] = []
prevouts (i ∷ is) = i.prevout ∷ prevouts is

unfoldable pub link_prevs : MpEntry → List (List ℕ) → Table MpPrev → Table MpPrev
unfolding pv_h
link_prevs e [] t = t
link_prevs e (v ∷ vs) t =
    link_prevs e vs (put_chain (pv_h v) (record { prevout = v; entry = e } ∷ t (pv_h v)) t)

unfoldable pub link_entry : MpEntry → Pool → Pool
unfolding tx_h link_prevs
link_entry e p = record p {
  tbucket = put_chain (tx_h e.txid) (e ∷ p.tbucket (tx_h e.txid)) p.tbucket;
  pbucket = link_prevs e e.prev p.pbucket;
  count = p.count + 1;
  bytes = p.bytes + length e.raw;
}

-- The outcomes of `mempool_accept`.
pub data Verdict : Type 0 where
  accepted : Verdict
  refused : Reason → Verdict
  malformed in_pool conflicting : Verdict

unfoldable pub any_owned : List (List ℕ) → Pool → Bool
unfolding prevout_owner
any_owned [] p = false
any_owned (v ∷ vs) p = elim (prevout_owner v p) [ some e ↦ true | none ↦ any_owned vs p ]

abbrev pub noted : ℕ → Pool → Pool
noted txid p = record p { seen = note_seen txid p.seen }

-- A transaction that is not in the pool; there is a turn of the loop for each entry.
unfoldable pub admit_new : ℕ → List ℕ → IdxTx → Pool → Verdict × Pool
admit_new now raw tx p = if any_owned (prevouts tx.ins) p then (Verdict.conflicting, p) else (
  Verdict.accepted,
  link_entry (record { txid = tx.txid; raw = raw; added = now; prev = prevouts tx.ins })
      (make_room (suc p.count) (length raw) p),
)

-- From the lock on: a transaction that passed the checks.
unfoldable pub admit : ℕ → List ℕ → IdxTx → Pool → Verdict × Pool
admit now raw tx p = elim (find_entry tx.txid p) [
  | some old ↦ (Verdict.in_pool, noted tx.txid p)
  | none ↦ admit_new now raw tx (noted tx.txid p)
]

-- The verdict, `txid_out` and the pool after `mempool_accept`.
pub record AcceptResult : Type 0 where
  pub verdict : Verdict
  pub txid_out : ℕ
  pub pool : Pool

abbrev pub empty_pool : Pool
empty_pool = record {
  tbucket = λ b. [];
  pbucket = λ b. [];
  count = 0;
  bytes = 0;
  seen = record { slots = λ i. 0; head = 0; n = 0 };
}

unfoldable pub mempool_has : ℕ → Pool → Bool
unfolding find_entry
mempool_has txid p = elim (find_entry txid p) [ none ↦ false | some e ↦ true ]

unfoldable pub mempool_get_copy : ℕ → Pool → Option (List ℕ)
unfolding find_entry
mempool_get_copy txid p = elim (find_entry txid p) [ none ↦ none | some e ↦ some e.raw ]

unfoldable pub mempool_seen : ℕ → Pool → Bool
unfolding mempool_has seen_locked
mempool_seen txid p = mempool_has txid p || seen_locked txid p.seen

unfoldable pub mempool_note_seen : ℕ → Pool → Pool
mempool_note_seen txid p = noted txid p

unfoldable pub remove_found : Option MpEntry → Pool → Pool
unfolding remove_entry
remove_found none p = p
remove_found (some e) p = remove_entry e p

-- The entries that spend what a confirmed transaction spends.
unfoldable pub remove_owners : List (List ℕ) → Pool → Pool
unfolding remove_found prevout_owner
remove_owners [] p = p
remove_owners (v ∷ vs) p = remove_owners vs (remove_found (prevout_owner v p) p)

-- Without the transaction there is only its txid.
unfoldable pub mempool_on_confirmed_tx : ℕ → Option IdxTx → Pool → Pool
mempool_on_confirmed_tx txid tx p =
    if p.count == 0
    then p
    else remove_owners (elim tx [ none ↦ [] | some t ↦ prevouts t.ins ])
        (remove_found (find_entry txid p) p)

-- The walk over one chain, which reads the next entry before it removes one.
unfoldable pub sweep_chain : ℕ → List MpEntry → Pool → Pool
unfolding remove_entry
sweep_chain now [] p = p
sweep_chain now (e ∷ es) p =
    sweep_chain now es (if ltb (e.added + expiry_sec) now then remove_entry e p else p)

unfoldable pub sweep_upto : ℕ → ℕ → Pool → Pool
unfolding sweep_chain
sweep_upto now zero p = p
sweep_upto now (suc n) p = let q = sweep_upto now n p in sweep_chain now (q.tbucket n) q

unfoldable pub mempool_sweep : ℕ → Pool → Pool
unfolding sweep_upto
mempool_sweep now p = if p.count == 0 then p else sweep_upto now buckets p

abbrev pub entry_ids : List MpEntry → List ℕ
entry_ids [] = []
entry_ids (e ∷ es) = e.txid ∷ entry_ids es

unfoldable pub mempool_txids : ℕ → Pool → List ℕ
unfolding chains
mempool_txids max p = take max (entry_ids (chains buckets p.tbucket))

-- The entries that the callback is given, in their order.
unfoldable pub mempool_scan : Pool → List MpEntry
unfolding chains
mempool_scan p = chains buckets p.tbucket

-- The array of the ring is left as it is.
unfoldable pub mempool_reset : Pool → Pool
mempool_reset p = record empty_pool { seen = record p.seen { head = 0; n = 0 } }

module _ (sha256 : List ℕ → ℕ) where
  -- A transaction that parses is seen even if the checks refuse it.
  unfoldable pub note_refused : List ℕ → Pool → Pool
  note_refused raw p = elim (idx_tx_parse sha256 raw) [ none ↦ p | some tx ↦ noted tx.txid p ]

  unfoldable pub mempool_accept : ℕ → List ℕ → Pool → AcceptResult
  mempool_accept now raw p = elim (txcheck_stateless sha256 raw) [
    | some why ↦ record { verdict = Verdict.refused why; txid_out = 0; pool = note_refused raw p }
    | none ↦ elim (idx_tx_parse sha256 raw) [
      | none ↦ record { verdict = Verdict.malformed; txid_out = 0; pool = p }
      | some tx ↦
          let (verdict, q) = admit now raw tx p in
          record { verdict = verdict; txid_out = tx.txid; pool = q }
    ]
  ]
