-- ===== src/Tests/RelayExamples.antt =====
-- The theorems of the pool of transactions at concrete inputs.
use namespace_indexer.Common.{
  ℕ, ◌≡◌, ◌≤◌, refl, List, [], ◌∷◌, ◌++◌, none, some, true, false, arith, length, replicate,
  bytes_eq,
}
use namespace_indexer.Chain.Cursor.Reads.{write_varint}
use namespace_indexer.Chain.Tx.{IdxTx, sha256d}
use namespace_indexer.Chain.Tx.Wire.{WireTx, serialize}
use namespace_indexer.Chain.Script.{script_payee}
use namespace_indexer.Relay.TxCheck.{txcheck_stateless, check_script}
use namespace_indexer.Relay.Chains.{find_first}
use namespace_indexer.Relay.Mempool.{
  prevout_owner, mempool_on_confirmed_tx, MpEntry, find_entry, make_room, admit, admit_new,
  any_owned, link_entry, empty_pool, buckets, chains, max_txs,
}
use namespace_indexer.Relay.Mempool.Apart.{Call, run, run-apart, run_count, empty_pool-Indexed}
use namespace_indexer.Relay.Mempool.Links.{contains}
use namespace_indexer.Relay.Mempool.Confirmed.{confirmed-gone}
use namespace_indexer.Relay.Mempool.Steps.{Roomy, make_room-Roomy}
use namespace_indexer.Tests.Scenario.{toy_hash}

-- A payment of an amount out of one output.
abbrev spend : ℕ → WireTx
spend amount = record {
  version = 1;
  ins =
      record { view = record { prevout = replicate 36 7; scriptsig = [] }; sequence = 0xFFFFFFFF }
      ∷ [];
  outs =
      record {
        value = amount;
        spk = 0x76 ∷ 0xA9 ∷ 0x14 ∷ (replicate 20 5 ++ 0x88 ∷ 0xAC ∷ []);
        vout = 0;
      }
      ∷ [];
  locktime = 0;
}

-- The same output spent twice.
abbrev two_spends : List Call
two_spends =
    Call.accept 1000 (serialize (spend 5000000))
    ∷ Call.accept 1001 (serialize (spend 6000000))
    ∷ Call.sweep 1002
    ∷ []

abbrev first_entry : MpEntry
first_entry = record {
  txid = sha256d toy_hash (serialize (spend 5000000));
  raw = serialize (spend 5000000);
  added = 1000;
  prev = replicate 36 7 ∷ [];
}

first_found :
    find_entry (sha256d toy_hash (serialize (spend 5000000))) (run toy_hash two_spends empty_pool)
    ≡ some first_entry
unfolding find_entry run serialize write_varint sha256d find_first txcheck_stateless check_script
    script_payee admit admit_new any_owned link_entry make_room
first_found = refl

run-apart_example : first_entry ≡ first_entry
unfolding serialize write_varint bytes_eq
run-apart_example =
    run-apart toy_hash two_spends first_entry.txid first_entry.txid first_entry first_entry
      (replicate 36 7) first_found first_found refl refl

run_count_example :
    ((run toy_hash two_spends empty_pool).count
      ≡ length (chains buckets (run toy_hash two_spends empty_pool).tbucket))
    × ((run toy_hash two_spends empty_pool).count ≤ max_txs)
run_count_example = run_count toy_hash two_spends

make_room-Roomy_example : Roomy 100 (make_room 1 100 empty_pool)
make_room-Roomy_example = make_room-Roomy 1 100 empty_pool empty_pool-Indexed (omega arith)

-- A confirmed transaction that spends the same output.
abbrev mined : IdxTx
mined = record {
  raw = [];
  txid = 9;
  ins = record { prevout = replicate 36 7; scriptsig = [] } ∷ [];
  outs = [];
}

confirmed-gone_example :
    (find_entry 9 (mempool_on_confirmed_tx 9 (some mined) (run toy_hash two_spends empty_pool))
      ≡ none)
    × ((u : ℕ) (e : MpEntry)
        → find_entry u (mempool_on_confirmed_tx 9 (some mined) (run toy_hash two_spends empty_pool))
          ≡ some e
        → (v : List ℕ) → contains v (replicate 36 7 ∷ []) ≡ true
        → contains v e.prev ≡ false)
    × ((v : List ℕ)
        → contains v (replicate 36 7 ∷ []) ≡ true
        → prevout_owner v
            (mempool_on_confirmed_tx 9 (some mined) (run toy_hash two_spends empty_pool))
          ≡ none)
confirmed-gone_example = confirmed-gone toy_hash two_spends 9 mined
