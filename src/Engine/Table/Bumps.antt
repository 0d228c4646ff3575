-- ===== src/Engine/Table/Bumps.antt =====
-- Mutation heights under sm_bump_mutation of protocol/impls/c/src/state.c.
use namespace_indexer.Common.{ℕ, ◌≤◌, sym, subst, inl, inr, arith, Bool-cases, ◌==◌, ==_iff}
use namespace_indexer.Engine.Table.{last_mutation, bump_mutation}
use namespace_indexer.Engine.Table.Laws.{
  last_mutation-bump_mutation_ne, last_mutation-bump_mutation_self,
}

pub bumped_self : (o h : ℕ) (ms : _) → h ≤ last_mutation o (bump_mutation o h ms)
bumped_self o h ms = ground (arith, last_mutation-bump_mutation_self o h ms)

pub bumped_other :
    (o w h k : ℕ) (ms : _) → k ≤ last_mutation o ms → k ≤ last_mutation o (bump_mutation w h ms)
bumped_other o w h k ms le = elim (Bool-cases (w == o)) [
  | inl same ↦
      subst (λ t. k ≤ last_mutation o (bump_mutation t h ms)) (sym ((==_iff w o).0 same))
        (ground (arith, last_mutation-bump_mutation_self o h ms))
  | inr other ↦ rw (last_mutation-bump_mutation_ne o w h ms (ground arith)) le
]
