-- ===== src/Net/Budget.antt =====
-- The getdata budget of src/net_policy.c over a sequence of requests.
use namespace_indexer.Common.{
  ℕ, ◌+◌, ◌≤◌, ◌<◌, ◌≡◌, not, ◌&&◌, List, [], ◌∷◌, inl, inr, ltb, ◌==◌, if◌then◌else◌, Bool-cases,
  arith, All,
}
use namespace_indexer.Net.{
  getdata_window, getdata_blocks, getdata_bytes, Served, window_at, net_policy_getdata_ok,
}

-- A request for data: its time, blocks and bytes.
pub record Request : Type 0 where
  pub time : ℕ
  pub blocks : ℕ
  pub bytes : ℕ

-- The blocks and the bytes of the requests that are granted, one after another.
unfoldable pub granted : List Request → Served → ℕ × ℕ
unfolding net_policy_getdata_ok
granted [] s = (0, 0)
granted (r ∷ rs) s =
    let answer = net_policy_getdata_ok s r.time r.blocks r.bytes in
    let rest = granted rs answer.1 in
    if answer.0 then (r.blocks + rest.0, r.bytes + rest.1) else rest

-- The state is within its budget, in a window that is open.
pub record Within (s : Served) : Type 0 where
  pub blocks : s.blocks ≤ getdata_blocks
  pub bytes : s.bytes ≤ getdata_bytes
  pub opened : 1 ≤ s.win

abbrev pub InWindow : ℕ → Request → Type 0
InWindow win r = r.time < win + getdata_window

window_at-same : (t : ℕ) (s : Served) → 1 ≤ s.win → t < s.win + getdata_window → window_at t s ≡ s
unfolding window_at
window_at-same t s h early = ground arith

-- However requests come within one window, the blocks and the bytes granted do not pass what is
-- left of its budget.
pub granted_bounds :
    (rs : List Request) (s : Served)
    → Within s
    → All (InWindow s.win) rs
    → (s.blocks + (granted rs s).0 ≤ getdata_blocks) × (s.bytes + (granted rs s).1 ≤ getdata_bytes)
unfolding granted net_policy_getdata_ok
granted_bounds [] s w early = (omega (arith, w.blocks), omega (arith, w.bytes))
granted_bounds (r ∷ rs) s w early =
    rw (window_at-same r.time s w.opened early.0)
      (elim (Bool-cases (not (r.blocks == 0) && ltb getdata_blocks (s.blocks + r.blocks))) [
        | inl many ↦ rw many (granted_bounds rs s w early.1)
        | inr few ↦
            elim (Bool-cases (not (r.bytes == 0) && ltb getdata_bytes (s.bytes + r.bytes))) [
              | inl large ↦ rw (few, large) (granted_bounds rs s w early.1)
              | inr small ↦
                  let b = w.blocks in
                  let c = w.bytes in
                  let next : Served = record s {
                    blocks = s.blocks + r.blocks;
                    bytes = s.bytes + r.bytes;
                  } in
                  let room : Within next = record {
                    blocks = ground arith;
                    bytes = ground arith;
                    opened = w.opened;
                  } in
                  let (x, y) = granted_bounds rs next room early.1 in
                  rw (few, small) (omega arith, omega arith)
            ]
      ])
