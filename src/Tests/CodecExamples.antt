-- ===== src/Tests/CodecExamples.antt =====
-- The theorems of the codec and of the oracle at concrete inputs.
use namespace_indexer.Common.{ℕ, ◌≡◌, refl, List, [], ◌∷◌, some, arith, All, length, ◌/◌, ◌≤◌}
use namespace_indexer.Engine.Types.{SmAction}
use namespace_indexer.Engine.Codec.{recognise, encode_action, zero_action}
use namespace_indexer.Engine.Codec.Layout.{Byte}
use namespace_indexer.Engine.Codec.Canonical.{encode_action-recognise}
use namespace_indexer.Engine.Oracle.{mtp, mtp_window, OracleBlock, oracle_rate, participants}
use namespace_indexer.Engine.Const.{dust_floor, rate_cap}
use namespace_indexer.Engine.Oracle.Rank.{Rank}
use namespace_indexer.Engine.Oracle.Medians.{mtp-Rank, oracle_rate-RateFrom, RateFrom}
use namespace_indexer.Engine.Feed.{
  Blk, OracleFeed, oracle_new, oracle_record, oracle_rollback, oracle_for_height,
}
use namespace_indexer.Engine.Feed.Past.{oracle_for_height_past, oracle_record-oracle_record}
use namespace_indexer.Tests.Scenario.{bob}

-- An offer of `bob` at 1000 for 7200 seconds.
sell_payload : List ℕ
sell_payload =
    0xFF ∷ 0x50 ∷ 0x4E ∷ 0x07 ∷ (0xE8 ∷ 3 ∷ 0 ∷ 0 ∷ 0 ∷ 0 ∷ 0 ∷ 0 ∷ (0x20 ∷ 0x1C ∷ 0 ∷ 0 ∷ bob))

sell_action : SmAction
sell_action = record (zero_action 0x07) { name = bob; price = 1000; window = 7200 }

sell_recognised : recognise sell_payload ≡ some sell_action
unfolding recognise sell_payload sell_action
sell_recognised = refl

sell_bytes : All Byte sell_payload
unfolding sell_payload
sell_bytes = ground arith

encode_action-recognise_example : encode_action sell_action ≡ some sell_payload
encode_action-recognise_example =
    encode_action-recognise sell_payload sell_action sell_bytes sell_recognised

-- Twelve blocks, out of order.
times : List ℕ
times = 5 ∷ 9 ∷ 2 ∷ 7 ∷ 1 ∷ 8 ∷ 3 ∷ 4 ∷ 6 ∷ 12 ∷ 10 ∷ 11 ∷ []

mtp-Rank_example : Rank (length (mtp_window times) / 2) (mtp_window times) (mtp times)
mtp-Rank_example = mtp-Rank times (unfold times in omega arith)

two_blocks : List OracleBlock
two_blocks =
    record { coinbase = 900; subsidy = 100; bytes = 10 }
    ∷ record { coinbase = 100; subsidy = 100; bytes = 0 }
    ∷ []

oracle_rate-RateFrom_example :
    (dust_floor ≤ oracle_rate two_blocks)
    × (oracle_rate two_blocks ≤ rate_cap)
    × RateFrom (participants two_blocks) (oracle_rate two_blocks)
oracle_rate-RateFrom_example = oracle_rate-RateFrom two_blocks

block_at : ℕ → ℕ → Blk
block_at height time = record { height = height; time = time; coinbase = 900; bytes = 10 }

one_block : OracleFeed
one_block = oracle_record oracle_new (block_at 1 50)

oracle_for_height_past_example :
    (oracle_for_height (oracle_rollback one_block 2) 2 ≡ oracle_for_height one_block 2)
    × (oracle_for_height (oracle_record one_block (block_at 2 60)) 2
        ≡ oracle_for_height one_block 2)
unfolding block_at
oracle_for_height_past_example = oracle_for_height_past 2 one_block (block_at 2 60) (omega arith)

oracle_record-oracle_record_example :
    oracle_record (oracle_record one_block (block_at 2 60)) (block_at 2 61)
    ≡ oracle_record one_block (block_at 2 61)
unfolding block_at
oracle_record-oracle_record_example =
    oracle_record-oracle_record one_block (block_at 2 60) (block_at 2 61) refl
