-- ===== src/Net.antt =====
-- The policy towards peers: src/net_policy.c. The table of bans is a list in array order; an
-- address is its text. Times are non-negative.
pub mod Bans
pub mod Lasting
pub mod Budget
pub mod Score
use namespace_indexer.Common.{
  ℕ, zero, suc, ◌+◌, ◌-◌, ◌*◌, Bool, true, false, not, ◌&&◌, ◌||◌, List, [], ◌∷◌, ◌++◌, Option,
  none, some, ltb, leb, ◌==◌, if◌then◌else◌, bytes_eq, length, take,
}
use namespace_indexer.Engine.Table.{last_first}

abbrev pub ban_cap : ℕ
ban_cap = 4096

abbrev pub ban_time : ℕ
ban_time = 24 * 3600

pub record Ban : Type 0 where
  pub ip : List ℕ
  pub until : ℕ

unfoldable pub ban_gc : ℕ → List Ban → List Ban
ban_gc now [] = []
ban_gc now (b ∷ bs) = let rest = ban_gc now bs in if ltb now b.until then b ∷ rest else rest

unfoldable pub has_ban : List ℕ → List Ban → Bool
has_ban ip [] = false
has_ban ip (b ∷ bs) = if bytes_eq b.ip ip then true else has_ban ip bs

-- The answer, and the table without the bans that are over.
unfoldable pub net_policy_banned : List ℕ → ℕ → List Ban → Bool × List Ban
unfolding ban_gc has_ban
net_policy_banned [] now bans = (false, bans)
net_policy_banned (c ∷ ip) now bans = (has_ban (c ∷ ip) (ban_gc now bans), ban_gc now bans)

-- The first entry of the address runs until `until`.
unfoldable pub renew_ban : List ℕ → ℕ → List Ban → List Ban
renew_ban ip until [] = []
renew_ban ip until (b ∷ bs) =
    if bytes_eq b.ip ip then record b { until = until } ∷ bs else b ∷ renew_ban ip until bs

-- The index of the first entry that ends soonest; `best` is that of the entries passed, at `until`.
unfoldable pub oldest : ℕ → ℕ → ℕ → List Ban → ℕ
oldest i best until [] = best
oldest i best until (b ∷ bs) =
    let next = oldest (suc i) i b.until bs in
    let same = oldest (suc i) best until bs in if ltb b.until until then next else same

-- The last entry moves into the freed slot.
unfoldable pub remove_at : ℕ → List Ban → List Ban
unfolding last_first
remove_at k [] = []
remove_at zero (b ∷ bs) = last_first bs
remove_at (suc k) (b ∷ bs) = b ∷ remove_at k bs

unfoldable pub evict : List Ban → List Ban
unfolding oldest remove_at
evict [] = []
evict (b ∷ bs) = remove_at (oldest 1 0 b.until bs) (b ∷ bs)

-- `snprintf` keeps 45 characters of the address.
unfoldable pub net_policy_ban : List ℕ → ℕ → List Ban → List Ban
unfolding ban_gc has_ban renew_ban evict
net_policy_ban [] now bans = bans
net_policy_ban (c ∷ ip) now bans =
    let live = ban_gc now bans in
    let kept = if leb ban_cap (length live) then evict live else live in
    if has_ban (c ∷ ip) live
    then renew_ban (c ∷ ip) (now + ban_time) live
    else kept ++ record { ip = take 45 (c ∷ ip); until = now + ban_time } ∷ []

abbrev pub getdata_window : ℕ
getdata_window = 10

abbrev pub getdata_blocks : ℕ
getdata_blocks = 16

abbrev pub getdata_bytes : ℕ
getdata_bytes = 16 * 1024 * 1024

-- What a peer was served in its window: `*blocks`, `*bytes` and `*win`.
pub record Served : Type 0 where
  pub blocks : ℕ
  pub bytes : ℕ
  pub win : ℕ

unfoldable pub window_at : ℕ → Served → Served
window_at now s =
    if s.win == 0 || leb getdata_window (now - s.win)
    then record { blocks = 0; bytes = 0; win = now }
    else s

unfoldable pub net_policy_getdata_ok : Served → ℕ → ℕ → ℕ → Bool × Served
unfolding window_at
net_policy_getdata_ok s now add_blocks add_bytes =
    let w = window_at now s in
    if not (add_blocks == 0) && ltb getdata_blocks (w.blocks + add_blocks)
    then (false, w)
    else if not (add_bytes == 0) && ltb getdata_bytes (w.bytes + add_bytes)
    then (false, w)
    else (true, record w { blocks = w.blocks + add_blocks; bytes = w.bytes + add_bytes })

abbrev pub getdata_items : ℕ
getdata_items = 128

abbrev pub ban_score : ℕ
ban_score = 100

-- The count at the start of a payload and the offset behind it; a wider count is refused.
unfoldable pub net_policy_read_count : List ℕ → Option (ℕ × ℕ)
net_policy_read_count [] = none
net_policy_read_count (c ∷ pl) =
    if c == 0xFD
    then elim pl [ [] ↦ none | a ∷ rest ↦ elim rest [ [] ↦ none | b ∷ _ ↦ some (a + 256 * b, 3) ] ]
    else if leb 0xFE c
    then none
    else some (c, 1)

-- Whether the score has now reached the limit, and the score. An addition below zero is ignored
-- like one of zero, so the score is a natural number.
unfoldable pub net_policy_score_add : ℕ → ℕ → Bool × ℕ
net_policy_score_add score n =
    if n == 0
    then (false, score)
    else let sum = if ltb (ban_score * 4) (score + n) then ban_score * 4 else score + n in
      (ltb score ban_score && leb ban_score sum, sum)

unfoldable pub net_policy_getdata_items_ok : ℕ → Bool
net_policy_getdata_items_ok examined = ltb examined getdata_items

unfoldable pub net_policy_reset : List Ban → List Ban
net_policy_reset bans = []
