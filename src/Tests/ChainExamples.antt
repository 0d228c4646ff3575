-- ===== src/Tests/ChainExamples.antt =====
-- The theorems of the chain reader at concrete inputs.
use namespace_indexer.Common.{
  ℕ, ◌+◌, ◌≡◌, ◌≤◌, ◌↔◌, refl, Bool, true, false, List, [], ◌∷◌, ◌++◌, Option, none, some, arith,
  All, length, replicate, if◌then◌else◌, ltb, ◌&&◌,
}
use namespace_indexer.Engine.Table.{new_state}
use namespace_indexer.Chain.Cursor.Reads.{write_varint}
use namespace_indexer.Engine.Codec.Layout.{Byte}
use namespace_indexer.Engine.Fold.{apply_tx}
use namespace_indexer.Chain.Hex.{idx_hash_to_hex, idx_hex_to_hash}
use namespace_indexer.Chain.Hex.Back.{idx_hex_to_hash-idx_hash_to_hex}
use namespace_indexer.Chain.Script.{carrier_max, op_return_payload}
use namespace_indexer.Chain.Script.Exact.{push, carrier_script, op_return_payload_iff}
use namespace_indexer.Chain.Tx.{IdxTx, idx_tx_parse}
use namespace_indexer.Chain.Tx.Wire.{WireTx, serialize, TxFits}
use namespace_indexer.Chain.Tx.Layout.{view_of, idx_tx_parse-serialize}
use namespace_indexer.Chain.Merkle.{merkle_root}
use namespace_indexer.Chain.Merkle.Mutation.{merkle_root-ends, merkle_root-double}
use namespace_indexer.Chain.Block.{IdxBlockMeta, idx_parse_block}
use namespace_indexer.Chain.Block.Layout.{write_block, views_of}
use namespace_indexer.Chain.Block.Header.{WireHeader, write_header}
use namespace_indexer.Chain.Block.Written.{BlockFits, Describes, idx_parse_block-write_block}
use namespace_indexer.Chain.Adapter.{have_carrier, idx_adapt_tx}
use namespace_indexer.Chain.Adapter.Lazy.{adapted_eagerly, idx_adapt_tx_eager}
use namespace_indexer.Relay.TxCheck.{tx_min_size, tx_max_size, script_push_only, txcheck_stateless}
use namespace_indexer.Relay.TxCheck.PushOnly.{Push, PushFits, write_pushes, script_push_only_iff}
use namespace_indexer.Relay.TxCheck.Standard.{StandardTx, BytesTx, txcheck_stateless_iff}
use namespace_indexer.Tests.Scenario.{toy_hash}

abbrev all_bytes : List ℕ → Bool
all_bytes [] = true
all_bytes (x ∷ xs) = ltb x 256 && all_bytes xs

bytes_of : (xs : List ℕ) → all_bytes xs ≡ true → All Byte xs
bytes_of [] h = tt
bytes_of (x ∷ xs) h = (ground arith, bytes_of xs (ground arith))

-- A payment to a public key hash, out of one input.
payee_script : List ℕ
payee_script = 0x76 ∷ 0xA9 ∷ 0x14 ∷ (replicate 20 5 ++ 0x88 ∷ 0xAC ∷ [])

payment : WireTx
payment = record {
  version = 1;
  ins =
      record {
        view = record { prevout = replicate 36 7; scriptsig = 2 ∷ 9 ∷ 8 ∷ [] };
        sequence = 0xFFFFFFFF;
      }
      ∷ [];
  outs = record { value = 5000000; spk = payee_script; vout = 0 } ∷ [];
  locktime = 0;
}

payment-TxFits : TxFits payment
unfolding payment payee_script
payment-TxFits = record {
  version = omega arith;
  some_in = omega arith;
  few_ins = omega arith;
  ins = (record { outpoint = refl; script = omega arith; sequence = omega arith }, tt);
  few_outs = omega arith;
  outs = ((omega arith, omega arith, refl), tt);
  locktime = omega arith;
}

payment_read :
    idx_tx_parse toy_hash (serialize payment) ≡ some (view_of payment payment-TxFits toy_hash)
unfolding payment payee_script idx_tx_parse serialize write_varint
payment_read = refl

idx_tx_parse-serialize_example :
    idx_tx_parse toy_hash (serialize payment) ≡ some (view_of payment payment-TxFits toy_hash)
idx_tx_parse-serialize_example = idx_tx_parse-serialize payment payment-TxFits toy_hash

-- A header with six different fields.
abbrev wire_header : WireHeader
wire_header = record { version = 2; prev = 3; merkle = 5; time = 7; bits = 11; nonce = 13 }

two_payments : BlockFits wire_header (payment ∷ payment ∷ [])
unfolding payment payee_script write_block write_header
two_payments = record {
  header = record {
    version = omega arith;
    prev = omega arith;
    merkle = omega arith;
    time = omega arith;
    bits = omega arith;
    nonce = omega arith;
    plain = refl;
  };
  few = omega arith;
  dense = omega arith;
  txs = (payment-TxFits, (payment-TxFits, tt));
}

idx_parse_block-write_block_example :
    (m : IdxBlockMeta) × (idx_parse_block toy_hash
        (write_block (write_header wire_header) (payment ∷ payment ∷ []))
      ≡ record {
        seen = views_of toy_hash (payment ∷ payment ∷ []) two_payments.txs;
        meta = some m;
      })
    × Describes toy_hash wire_header (payment ∷ payment ∷ []) m
idx_parse_block-write_block_example =
    idx_parse_block-write_block toy_hash wire_header (payment ∷ payment ∷ []) two_payments

op_return_payload_iff_example :
    (op_return_payload (carrier_script (1 ∷ 2 ∷ [])) ≡ some (1 ∷ 2 ∷ []))
    ↔ ((carrier_script (1 ∷ 2 ∷ []) ≡ carrier_script (1 ∷ 2 ∷ [])) × (2 ≤ carrier_max))
unfolding push
op_return_payload_iff_example =
    op_return_payload_iff (carrier_script (1 ∷ 2 ∷ [])) (1 ∷ 2 ∷ [])
      (bytes_of (carrier_script (1 ∷ 2 ∷ [])) refl)

merkle_root-double_example :
    (r : ℕ × Bool) × (merkle_root toy_hash (4 ∷ 5 ∷ 6 ∷ []) ≡ some r)
    × (merkle_root toy_hash (4 ∷ 5 ∷ 6 ∷ 6 ∷ []) ≡ some (r.0, true))
merkle_root-double_example = merkle_root-double toy_hash (4 ∷ 5 ∷ []) 0 6 refl

merkle_root-ends_example : (r : ℕ × Bool) × (merkle_root toy_hash (4 ∷ 5 ∷ 6 ∷ []) ≡ some r)
merkle_root-ends_example = merkle_root-ends toy_hash (4 ∷ 5 ∷ 6 ∷ []) (omega arith)

idx_hex_to_hash-idx_hash_to_hex_example :
    idx_hex_to_hash (idx_hash_to_hex (replicate 32 0xAB)) ≡ some (replicate 32 0xAB)
idx_hex_to_hash-idx_hash_to_hex_example =
    idx_hex_to_hash-idx_hash_to_hex (replicate 32 0xAB) (bytes_of (replicate 32 0xAB) refl) refl

script_push_only_iff_example :
    (script_push_only (2 ∷ 9 ∷ 8 ∷ []) ≡ true)
    ↔ ((ps : List Push) × All PushFits ps × (2 ∷ 9 ∷ 8 ∷ [] ≡ write_pushes ps))
script_push_only_iff_example =
    script_push_only_iff (2 ∷ 9 ∷ 8 ∷ []) (omega arith, (omega arith, (omega arith, tt)))

payment-BytesTx : BytesTx (view_of payment payment-TxFits toy_hash)
unfolding payment payee_script
payment-BytesTx = record {
  ins = (bytes_of (2 ∷ 9 ∷ 8 ∷ []) refl, tt);
  outs = (bytes_of payee_script refl, tt);
}

txcheck_stateless_iff_example : (txcheck_stateless toy_hash (serialize payment) ≡ none) ↔ (
    (tx_min_size ≤ length (serialize payment))
    × (length (serialize payment) ≤ tx_max_size)
    × StandardTx (view_of payment payment-TxFits toy_hash))
txcheck_stateless_iff_example =
    txcheck_stateless_iff toy_hash payment payment-TxFits payment-BytesTx

-- Two inputs, the second of which an AS names.
named_second : IdxTx
named_second = record {
  raw = [];
  txid = 9;
  ins =
      record { prevout = replicate 36 7; scriptsig = [] }
      ∷ record { prevout = replicate 36 8; scriptsig = [] }
      ∷ [];
  outs =
      record { value = 0; spk = carrier_script (0xFF ∷ 0x50 ∷ 0x4E ∷ 0x0E ∷ 1 ∷ []); vout = 0 }
      ∷ [];
}

one_each : List ℕ → ℕ → Option (ℕ × ℕ)
one_each raw k = some (k + 1, 0)

idx_adapt_tx_eager_example : idx_adapt_tx one_each toy_hash (new_state 0) named_second 3 ≡ (
    if have_carrier named_second.outs
    then (apply_tx toy_hash (new_state 0) (adapted_eagerly one_each named_second 3), true)
    else (new_state 0, false))
idx_adapt_tx_eager_example = idx_adapt_tx_eager one_each toy_hash (new_state 0) named_second 3

second_carried : have_carrier named_second.outs ≡ true
unfolding have_carrier named_second push
second_carried = refl
