-- ===== src/Engine/Trade.antt =====
-- TRADE, the atomic swap of two names: protocol/impls/c/src/trade.c.
pub mod Swap
use namespace_indexer.Common.{
  ℕ, not, ◌&&◌, Option, none, some, ◌==◌, ◌>>=◌, ◌>>◌, guard, bytes_eq, get_elem?,
}
use namespace_indexer.Engine.Event.{ev_trade_ok}
use namespace_indexer.Engine.Types.{SmAction, SmTx, SmState, SmTxCtx, SmNameRow, is_owned}
use namespace_indexer.Engine.Name.{name_valid}
use namespace_indexer.Engine.Table.{find_name, put_row, bump_mutation, count_ev}

-- An index out of range has no input.
unfoldable pub op_trade : SmState → SmTx → SmTxCtx → SmAction → Option SmState
unfolding name_valid find_name put_row bump_mutation count_ev
op_trade s tx cx a = do
  pa ← get_elem? tx.inputs a.idx_a
  pb ← get_elem? tx.inputs a.idx_b
  guard (not (a.idx_a == a.idx_b))
  guard (pa.sighash_all && pb.sighash_all)
  guard (name_valid a.name && name_valid a.name_b)
  guard (not (bytes_eq a.name a.name_b))
  ra ← find_name a.name s.names
  rb ← find_name a.name_b s.names
  guard (is_owned ra.st && ra.owner == pa.h160)
  guard (is_owned rb.st && rb.owner == pb.h160)
  let ra' : SmNameRow = record ra { owner = pb.h160; owner_type = pb.type }
  let rb' : SmNameRow = record rb { owner = pa.h160; owner_type = pa.type }
  some (record s {
    names = put_row rb' (put_row ra' s.names);
    muts = bump_mutation pb.h160 cx.height (bump_mutation pa.h160 cx.height s.muts);
    ev = count_ev ev_trade_ok s.ev;
  })
