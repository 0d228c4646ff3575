-- ===== src/Engine/Claim.antt =====
-- The mandatory commit and claim: protocol/impls/c/src/claim.c. The hash of sha256.c is a
-- parameter of op_claim.
pub mod Commits
pub mod Backed
use namespace_indexer.Common.{
  ℕ, Bool, true, false, ◌&&◌, ◌||◌, List, [], ◌∷◌, ◌++◌, Option, none, some, ltb, ◌==◌,
  if◌then◌else◌, ◌>>=◌, ◌>>◌, guard, bytes_eq, le_write,
}
use namespace_indexer.Engine.Event.{ev_claim_mint, ev_claim_displace}
use namespace_indexer.Engine.Types.{
  SmAction, SmNameRow, SmNameState, SmCommit, SmClaimWin, SmState, SmTxCtx, is_owned,
}
use namespace_indexer.Engine.Name.{name_valid}
use namespace_indexer.Engine.Lease.{lease_covers_day, waterfill}
use namespace_indexer.Engine.Table.{
  find_name, put_row, add_name, zero_row, bump_mutation, find_scratch, set_scratch, count_ev,
}

-- The 20 bytes of a hash160, which is kept as the little-endian number of its bytes, and the preimage of a commitment.
unfoldable pub h160_bytes : ℕ → List ℕ
unfolding le_write
h160_bytes h = le_write 20 h

unfoldable pub commit_preimage : List ℕ → List ℕ → ℕ → List ℕ
unfolding h160_bytes
commit_preimage salt name actor = salt ++ name ++ h160_bytes actor

-- The better of the best commit so far, as its height and transaction index, and a matching one.
unfoldable pub earlier : SmCommit → Option (ℕ × ℕ) → Option (ℕ × ℕ)
earlier c none = some (c.commit_height, c.tx_index)
earlier c (some (h, t)) =
    if ltb c.commit_height h || c.commit_height == h && ltb c.tx_index t
    then some (c.commit_height, c.tx_index)
    else some (h, t)

-- The scan for the earliest commit in a strictly earlier block.
unfoldable pub earliest_commit : ℕ → ℕ → List SmCommit → Option (ℕ × ℕ) → Option (ℕ × ℕ)
unfolding earlier
earliest_commit height want [] best = best
earliest_commit height want (c ∷ cs) best =
    earliest_commit height want cs
      (if ltb c.commit_height height && c.commitment == want then earlier c best else best)

-- The scratch entry of a claim backed by the commit at `(ch, ti)`.
abbrev pub claim_win : SmTxCtx → SmAction → ℕ → ℕ → SmClaimWin
claim_win cx a ch ti = record {
  name = a.name;
  commit_height = ch;
  commit_tx_index = ti;
  owner = cx.actor;
}

-- The claim's row before the water-fill buys its lease.
abbrev pub claimed_row : SmTxCtx → SmNameRow → SmNameRow
claimed_row cx r = record r { owner = cx.actor; owner_type = cx.actor_type; lease_expiry = cx.mtp }

-- The end of both branches: the lease, the mutation height, the scratch entry and the counter.
unfoldable pub finish_claim : SmTxCtx → SmAction → ℕ → ℕ → ℕ → SmNameRow → SmState → SmState
unfolding waterfill bump_mutation set_scratch count_ev
finish_claim cx a ch ti event r s =
    let t = waterfill cx.mtp cx.rate cx.car_value (r ∷ []) s in
    record t {
      muts = bump_mutation cx.actor cx.height t.muts;
      claimsc = set_scratch (claim_win cx a ch ti) t.claimsc;
      ev = count_ev event t.ev;
    }

unfoldable pub displace : SmState → SmTxCtx → SmAction → ℕ → ℕ → SmNameRow → Option SmState
unfolding find_scratch finish_claim put_row
displace s cx a ch ti row = do
  scr ← find_scratch a.name s.claimsc
  guard (is_owned row.st && row.owner == scr.owner)
  guard (ltb ch scr.commit_height || ch == scr.commit_height && ltb ti scr.commit_tx_index)
  let r : SmNameRow = claimed_row cx row
  some (finish_claim cx a ch ti ev_claim_displace r (record s { names = put_row r s.names }))

unfoldable pub mint : SmState → SmTxCtx → SmAction → ℕ → ℕ → SmState
unfolding zero_row finish_claim add_name
mint s cx a ch ti =
    let r = claimed_row cx (zero_row a.name) in
    finish_claim cx a ch ti ev_claim_mint r (record s { names = add_name r s.names })

module _ (sha256 : List ℕ → ℕ) where
  unfoldable pub op_claim : SmState → SmTxCtx → SmAction → Option SmState
  unfolding commit_preimage earliest_commit name_valid lease_covers_day find_name displace mint
  op_claim s cx a = do
    guard (name_valid a.name)
    (ch, ti) ←
        earliest_commit cx.height (sha256 (commit_preimage a.salt a.name cx.actor)) s.commits none
    guard (lease_covers_day cx.car_value cx.rate)
    elim (find_name a.name s.names) [
      | none ↦ some (mint s cx a ch ti)
      | some row ↦ displace s cx a ch ti row
    ]
