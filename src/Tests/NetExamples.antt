-- ===== src/Tests/NetExamples.antt =====
-- The theorems of the peer policy at concrete inputs.
use namespace_indexer.Common.{bytes_eq, ◌+◌, ◌≤◌, ◌≡◌, true, List, [], ◌∷◌, arith, length}
use namespace_indexer.Net.Score.{reports, reports_once}
use namespace_indexer.Net.{
  Ban, ban_gc, has_ban, net_policy_banned, net_policy_ban, ban_cap, Served, getdata_blocks,
  getdata_bytes,
}
use namespace_indexer.Net.Bans.{length-net_policy_ban}
use namespace_indexer.Net.Lasting.{Visit, run, net_policy_banned-run}
use namespace_indexer.Net.Budget.{Request, granted, granted_bounds}
use namespace_indexer.Tests.Scenario.{bob, amy}

amy_banned : List Ban
amy_banned = record { ip = amy; until = 500 } ∷ []

-- Amy's ban is renewed and bob is looked up before he comes back.
later_visits : List Visit
later_visits = Visit.ban amy 120 ∷ Visit.ask bob 130 ∷ []

net_policy_banned-run_example :
    (net_policy_banned bob 200 (run later_visits (net_policy_ban bob 100 amy_banned))).0 ≡ true
unfolding amy_banned bytes_eq
net_policy_banned-run_example =
    net_policy_banned-run bob 100 200 amy_banned later_visits (omega arith) (omega arith)
      (omega arith)
      (unfold later_visits in ((omega arith, omega arith), ((omega arith, omega arith), tt)))
      (unfold later_visits net_policy_ban ban_gc has_ban in omega arith)

length-net_policy_ban_example : length (net_policy_ban bob 100 amy_banned) ≤ ban_cap
length-net_policy_ban_example =
    length-net_policy_ban bob 100 amy_banned (unfold amy_banned in omega arith)

busy : Served
busy = record { blocks = 15; bytes = 1000; win = 7 }

two_requests : List Request
two_requests =
    record { time = 8; blocks = 1; bytes = 10 } ∷ record { time = 9; blocks = 1; bytes = 10 } ∷ []

granted_bounds_example :
    (busy.blocks + (granted two_requests busy).0 ≤ getdata_blocks)
    × (busy.bytes + (granted two_requests busy).1 ≤ getdata_bytes)
granted_bounds_example =
    granted_bounds two_requests busy
      (unfold busy in record { blocks = omega arith; bytes = omega arith; opened = omega arith })
      (unfold busy two_requests in (omega arith, (omega arith, tt)))

-- Three offences, of which the second reaches the limit.
reports_once_example : reports (60 ∷ 50 ∷ 70 ∷ []) 0 ≡ 1
reports_once_example = reports_once (60 ∷ 50 ∷ 70 ∷ []) 0 (omega arith)
