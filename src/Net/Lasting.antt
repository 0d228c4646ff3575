-- ===== src/Net/Lasting.antt =====
-- Bans of src/net_policy.c over the visits that come after them.
use namespace_indexer.Common.{
  ℕ, suc, ◌+◌, ◌≤◌, ◌<◌, ◌≡◌, true, false, List, [], ◌∷◌, ◌++◌, leb, if-elim, arith, All, length,
  length-append, take,
}
use namespace_indexer.Net.{
  ban_cap, ban_time, Ban, ban_gc, has_ban, net_policy_banned, renew_ban, net_policy_ban,
}
use namespace_indexer.Net.Bans.{length-ban_gc, length-renew_ban, ban_gc-net_policy_ban}

-- A call on the table: an address is banned, or it is looked up.
pub data Visit : Type 0 where
  ban ask : List ℕ → ℕ → Visit

abbrev pub time_of : Visit → ℕ
time_of (Visit.ban ip now) = now
time_of (Visit.ask ip now) = now

-- The table after the calls, one after another.
unfoldable pub run : List Visit → List Ban → List Ban
unfolding net_policy_ban net_policy_banned
run [] bs = bs
run (Visit.ban ip now ∷ vs) bs = run vs (net_policy_ban ip now bs)
run (Visit.ask ip now ∷ vs) bs = run vs (net_policy_banned ip now bs).1

-- The calls that ban.
abbrev pub new_bans : List Visit → ℕ
new_bans [] = 0
new_bans (Visit.ban ip now ∷ vs) = suc (new_bans vs)
new_bans (Visit.ask ip now ∷ vs) = new_bans vs

-- A ban of the address runs beyond the time.
abbrev Kept : List ℕ → ℕ → List Ban → Type 0
Kept ip t bs = has_ban ip (ban_gc t bs) ≡ true

gc-Kept : (ip : List ℕ) (t u : ℕ) (bs : List Ban) → u ≤ t → Kept ip t bs → Kept ip t (ban_gc u bs)
unfolding has_ban ban_gc
gc-Kept ip t u [] h k = k
gc-Kept ip t u (b ∷ bs) h k = let rest = gc-Kept ip t u bs h in grind arith

renew-Kept :
    (ip other : List ℕ) (t until : ℕ) (bs : List Ban)
    → t < until
    → Kept ip t bs
    → Kept ip t (renew_ban other until bs)
unfolding has_ban ban_gc renew_ban
renew-Kept ip other t until [] h k = k
renew-Kept ip other t until (b ∷ bs) h k =
    let rest = renew-Kept ip other t until bs h in grind arith

append-Kept : (ip : List ℕ) (t : ℕ) (bs cs : List Ban) → Kept ip t bs → Kept ip t (bs ++ cs)
unfolding has_ban ban_gc
append-Kept ip t [] cs k = absurd (ground arith)
append-Kept ip t (b ∷ bs) cs k = let rest = append-Kept ip t bs cs in grind arith

-- A ban in a table with room keeps the bans that are there, and takes one slot at most.
ban-Kept :
    (ip other : List ℕ) (t u : ℕ) (bs : List Ban)
    → u ≤ t
    → t < u + ban_time
    → length bs < ban_cap
    → Kept ip t bs
    → Kept ip t (net_policy_ban other u bs) × (length (net_policy_ban other u bs) ≤ suc (length bs))
unfolding net_policy_ban
ban-Kept ip [] t u bs late early room k = (k, omega arith)
ban-Kept ip (c ∷ other) t u bs late early room k =
    let live = ban_gc u bs in
    let few = length-ban_gc u bs in
    let kept = gc-Kept ip t u bs late k in
    let below : leb ban_cap (length live) ≡ false = ground arith in
    let entry : Ban = record { ip = take 45 (c ∷ other); until = u + ban_time } in
    if-elim {A = List Ban} (λ cs. Kept ip t cs × (length cs ≤ suc (length bs)))
      (has_ban (c ∷ other) live) _ _
      (λ _. (
        renew-Kept ip (c ∷ other) t (u + ban_time) live early kept,
        omega (arith, length-renew_ban (c ∷ other) (u + ban_time) live),
      ))
      (λ _.
        rw below
          (append-Kept ip t live (entry ∷ []) kept, omega (arith, length-append live (entry ∷ []))))

asked-Kept :
    (ip other : List ℕ) (t u : ℕ) (bs : List Ban)
    → u ≤ t
    → Kept ip t bs
    → Kept ip t (net_policy_banned other u bs).1
      × (length (net_policy_banned other u bs).1 ≤ length bs)
unfolding net_policy_banned
asked-Kept ip [] t u bs late k = (k, omega arith)
asked-Kept ip (c ∷ other) t u bs late k = (gc-Kept ip t u bs late k, length-ban_gc u bs)

-- The visits come between the two times.
abbrev pub Between : ℕ → ℕ → Visit → Type 0
Between now t v = (now ≤ time_of v) × (time_of v ≤ t)

run-Kept :
    (ip : List ℕ) (now t : ℕ) (vs : List Visit) (bs : List Ban)
    → t < now + ban_time
    → All (Between now t) vs
    → length bs + new_bans vs ≤ ban_cap
    → Kept ip t bs
    → Kept ip t (run vs bs)
unfolding run
run-Kept ip now t [] bs early times room k = k
run-Kept ip now t (Visit.ban other u ∷ vs) bs early times room k =
    let (after, late) = times.0 in
    let (kept, few) = ban-Kept ip other t u bs late (omega arith) (omega arith) k in
    run-Kept ip now t vs (net_policy_ban other u bs) early times.1 (omega arith) kept
run-Kept ip now t (Visit.ask other u ∷ vs) bs early times room k =
    let (after, late) = times.0 in
    let (kept, few) = asked-Kept ip other t u bs late k in
    run-Kept ip now t vs (net_policy_banned other u bs).1 early times.1 (omega arith) kept

-- A peer with an address of 1 to 45 characters that is banned is refused at every time before the
-- ban has run for a day, whatever addresses are banned and looked up from the ban to that time, as
-- long as the array has a slot for each of those bans, so that none of them displaces another.
pub net_policy_banned-run :
    (ip : List ℕ) (now t : ℕ) (bans : List Ban) (vs : List Visit)
    → 1 ≤ length ip
    → length ip ≤ 45
    → t < now + ban_time
    → All (Between now t) vs
    → length (net_policy_ban ip now bans) + new_bans vs ≤ ban_cap
    → (net_policy_banned ip t (run vs (net_policy_ban ip now bans))).0 ≡ true
unfolding net_policy_banned
net_policy_banned-run [] now t bans vs some_char short early times room = absurd (omega arith)
net_policy_banned-run (c ∷ ip) now t bans vs some_char short early times room =
    run-Kept (c ∷ ip) now t vs (net_policy_ban (c ∷ ip) now bans) early times room
      (ban_gc-net_policy_ban (c ∷ ip) now t bans some_char short early)
