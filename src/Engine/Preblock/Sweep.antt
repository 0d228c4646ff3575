-- ===== src/Engine/Preblock/Sweep.antt =====
-- The deadlines of the rows after the transitions of preblock.c, and the pruning of commits.
use mathlib.Core.List.{filter, Perm}
use mathlib.Core.List.Perm
use mathlib.Core.Logic.{if_pos, if_neg}
use native.Mathlib.Decide.{dec_le}
use namespace_indexer.Common.{
  ℕ, zero, suc, ◌+◌, ◌≤◌, ◌<◌, ◌≡◌, refl, ap, ◌∙◌, true, false, List, [], ◌∷◌, ltb, leb, if-elim,
  arith, All, length,
}
use namespace_indexer.Engine.Const.{commit_expiry}
use namespace_indexer.Engine.Types.{SmNameRow, SmCommit, SmMut, SmState, is_owned, is_reserved}
use namespace_indexer.Engine.Table.{last_first, second}
use namespace_indexer.Engine.Table.Laws.{All-last_first, length-last_first}
use namespace_indexer.Engine.Preblock.{settle_row, sweep, prune_commits, preblock, Swept}

-- Nothing of the row is due at the time.
pub record Current (mtp : ℕ) (r : SmNameRow) : Type 0 where
  pub leased : mtp < r.lease_expiry
  pub offering : is_owned r.st ≡ false → mtp < r.offer_expiry
  pub reserving : is_reserved r.st ≡ true → mtp < r.reserve_expiry

-- The deadline of a reserve is not behind that of its listing.
abbrev pub Clamped : SmNameRow → Type 0
Clamped r = is_reserved r.st ≡ true → r.reserve_expiry ≤ r.offer_expiry

settle_row-Current :
    (mtp : ℕ) (r : SmNameRow)
    → Clamped r
    → leb (settle_row mtp r).lease_expiry mtp ≡ false
    → Current mtp (settle_row mtp r)
unfolding settle_row
settle_row-Current mtp r c h = ground arith

pub sweep-Current :
    (mtp fuel height : ℕ) (rs : List SmNameRow) (muts : List SmMut) (ev : List ℕ)
    → length rs ≤ fuel
    → All Clamped rs
    → All (Current mtp) (sweep fuel height mtp rs muts ev).rows
unfolding sweep
sweep-Current mtp zero height [] muts ev f a = tt
sweep-Current mtp zero height (r ∷ rs) muts ev f a = elim f [ ]
sweep-Current mtp (suc fuel) height [] muts ev f a = tt
sweep-Current mtp (suc fuel) height (r ∷ rs) muts ev f a =
    if-elim {A = Swept} (λ w. All (Current mtp) w.rows) (leb (settle_row mtp r).lease_expiry mtp) _
      _
      (λ _.
        sweep-Current mtp fuel height (last_first rs) _ _ (omega (arith, length-last_first rs))
          (All-last_first Clamped rs a.1))
      (λ alive. (
        settle_row-Current mtp r a.0 alive,
        sweep-Current mtp fuel height rs muts ev (omega arith) a.1,
      ))

-- The commits that are not expired.
abbrev pub fresh_commits : ℕ → List SmCommit → List SmCommit
fresh_commits mtp = filter λ c. dec_le mtp (c.commit_time + commit_expiry)

second-perm : (x : SmCommit) (cs : List SmCommit) → Perm (second x cs) (x ∷ cs)
unfolding second
second-perm x [] = Perm.refl (x ∷ [])
second-perm x (l ∷ cs) = Perm.swap x l cs

last_first-perm : (cs : List SmCommit) → Perm (last_first cs) cs
unfolding last_first
last_first-perm [] = Perm.nil
last_first-perm (x ∷ cs) =
    Perm.trans (second-perm x (last_first cs)) (Perm.cons x (last_first-perm cs))

length-second : (x : SmCommit) (cs : List SmCommit) → length (second x cs) ≡ suc (length cs)
unfolding second
length-second x [] = refl
length-second x (l ∷ cs) = refl

length-last_first_commits : (cs : List SmCommit) → length (last_first cs) ≡ length cs
unfolding last_first
length-last_first_commits [] = refl
length-last_first_commits (x ∷ cs) =
    length-second x (last_first cs) ∙ ap suc (length-last_first_commits cs)

prune_commits-perm :
    (fuel mtp : ℕ) (cs : List SmCommit)
    → length cs ≤ fuel
    → Perm (prune_commits fuel mtp cs) (fresh_commits mtp cs)
unfolding prune_commits
prune_commits-perm zero mtp [] f = Perm.nil
prune_commits-perm zero mtp (c ∷ cs) f = elim f [ ]
prune_commits-perm (suc fuel) mtp [] f = Perm.nil
prune_commits-perm (suc fuel) mtp (c ∷ cs) f = elim (dec_le mtp (c.commit_time + commit_expiry)) [
  | yes live ↦
      rw (not_over live)
        (rw (if_pos _ live) (Perm.cons c (prune_commits-perm fuel mtp cs (omega arith))))
  | no over ↦ rw (is_over over) (
      rw (if_neg _ over) (
        Perm.trans
          (prune_commits-perm fuel mtp (last_first cs)
            (omega (arith, length-last_first_commits cs)))
          (Perm.filter _ (last_first-perm cs))))
]
  where
    not_over : mtp ≤ c.commit_time + commit_expiry → ltb (c.commit_time + commit_expiry) mtp ≡ false
    not_over h = ground arith

    is_over :
        ¬ (mtp ≤ c.commit_time + commit_expiry) → ltb (c.commit_time + commit_expiry) mtp ≡ true
    is_over h = ground arith

-- After the transitions no row has anything due: no lease, offer or reserve that is over is left
-- (given that no reserve outlasts its listing); and the commits that are left are exactly those
-- within their window, in some order.
pub preblock-Current :
    (height mtp : ℕ) (s : SmState)
    → All Clamped s.names
    → All (Current mtp) (preblock height mtp s).names
      × Perm (preblock height mtp s).commits (fresh_commits mtp s.commits)
unfolding preblock
preblock-Current height mtp s a = (
  sweep-Current mtp (length s.names) height s.names s.muts s.ev (omega arith) a,
  prune_commits-perm (length s.commits) mtp s.commits (omega arith),
)
