-- ===== src/Net/Bans.antt =====
-- The table of bans of src/net_policy.c: lookups after a ban, and the length of the table.
use namespace_indexer.Common.{
  ℕ, zero, suc, ◌+◌, ◌≤◌, ◌<◌, ◌≡◌, refl, ap, ◌∙◌, true, List, [], ◌∷◌, ◌++◌, ltb, leb, if-elim,
  Bool-cases, inl, inr, arith, bytes_eq_refl, length, length-append, take,
}
use namespace_indexer.Engine.Table.{last_first, second}
use namespace_indexer.Net.{
  ban_cap, ban_time, Ban, ban_gc, has_ban, renew_ban, oldest, remove_at, evict, net_policy_ban,
}

has_ban-renew_ban :
    (ip : List ℕ) (t until : ℕ) (bs : List Ban)
    → t < until
    → has_ban ip bs ≡ true
    → has_ban ip (ban_gc t (renew_ban ip until bs)) ≡ true
unfolding has_ban ban_gc renew_ban
has_ban-renew_ban ip t until [] h e = absurd (ground arith)
has_ban-renew_ban ip t until (b ∷ bs) h e = ground (arith, has_ban-renew_ban ip t until bs)

has_ban-append :
    (ip : List ℕ) (t until : ℕ) (bs : List Ban)
    → t < until
    → has_ban ip (ban_gc t (bs ++ record { ip = ip; until = until } ∷ [])) ≡ true
unfolding has_ban ban_gc
has_ban-append ip t until [] h = ground (arith, bytes_eq_refl ip)
has_ban-append ip t until (b ∷ bs) h = ground (arith, has_ban-append ip t until bs)

take_all : (n : ℕ) (xs : List ℕ) → length xs ≤ n → take n xs ≡ xs
take_all zero [] h = refl
take_all zero (x ∷ xs) h = absurd (omega arith)
take_all (suc n) [] h = refl
take_all (suc n) (x ∷ xs) h = ap (◌∷◌ x) (take_all n xs (omega arith))

-- A ban is in the table that it leaves, until it is over.
pub ban_gc-net_policy_ban :
    (ip : List ℕ) (now t : ℕ) (bans : List Ban)
    → 1 ≤ length ip
    → length ip ≤ 45
    → t < now + ban_time
    → has_ban ip (ban_gc t (net_policy_ban ip now bans)) ≡ true
unfolding net_policy_ban
ban_gc-net_policy_ban [] now t bans some_char short early = absurd (omega arith)
ban_gc-net_policy_ban (c ∷ ip) now t bans some_char short early =
    let live = ban_gc now bans in
    if-elim {A = List Ban} (λ bs. has_ban (c ∷ ip) (ban_gc t bs) ≡ true) (has_ban (c ∷ ip) live) _ _
      (λ found. has_ban-renew_ban (c ∷ ip) t (now + ban_time) live early found)
      (λ _. rw (take_all 45 (c ∷ ip) short) (has_ban-append (c ∷ ip) t (now + ban_time) _ early))

pub length-ban_gc : (now : ℕ) (bs : List Ban) → length (ban_gc now bs) ≤ length bs
unfolding ban_gc
length-ban_gc now [] = omega arith
length-ban_gc now (b ∷ bs) = ground (arith, length-ban_gc now bs)

pub length-renew_ban :
    (ip : List ℕ) (until : ℕ) (bs : List Ban) → length (renew_ban ip until bs) ≡ length bs
unfolding renew_ban
length-renew_ban ip until [] = refl
length-renew_ban ip until (b ∷ bs) = ground (arith, length-renew_ban ip until bs)

oldest-bound :
    (i best until : ℕ) (bs : List Ban) → best < i → oldest i best until bs < i + length bs
unfolding oldest
oldest-bound i best until [] h = omega arith
oldest-bound i best until (b ∷ bs) h =
    if-elim (λ k. k < i + suc (length bs)) (ltb b.until until) _ _
      (λ _. omega (arith, oldest-bound (suc i) i b.until bs (omega arith)))
      (λ _. omega (arith, oldest-bound (suc i) best until bs (omega arith)))

length-last_first_bans : (bs : List Ban) → length (last_first bs) ≡ length bs
unfolding last_first second
length-last_first_bans [] = refl
length-last_first_bans (b ∷ bs) =
    length-second b (last_first bs) ∙ ap suc (length-last_first_bans bs)
  where
    length-second : (x : Ban) (xs : List Ban) → length (second x xs) ≡ suc (length xs)
    length-second x [] = unfold second in refl
    length-second x (l ∷ xs) = unfold second in refl

length-remove_at :
    (k : ℕ) (bs : List Ban) → k < length bs → suc (length (remove_at k bs)) ≡ length bs
unfolding remove_at
length-remove_at k [] h = absurd (omega arith)
length-remove_at zero (b ∷ bs) h = ap suc (length-last_first_bans bs)
length-remove_at (suc k) (b ∷ bs) h = ap suc (length-remove_at k bs (omega arith))

length-evict : (bs : List Ban) → 1 ≤ length bs → suc (length (evict bs)) ≡ length bs
unfolding evict
length-evict [] h = absurd (omega arith)
length-evict (b ∷ bs) h =
    length-remove_at (oldest 1 0 b.until bs) (b ∷ bs)
      (omega (arith, oldest-bound 1 0 b.until bs (omega arith)))

-- Where the bans fit the array, they fit it after one more.
pub length-net_policy_ban :
    (ip : List ℕ) (now : ℕ) (bans : List Ban)
    → length bans ≤ ban_cap
    → length (net_policy_ban ip now bans) ≤ ban_cap
unfolding net_policy_ban
length-net_policy_ban [] now bans fits = fits
length-net_policy_ban (c ∷ ip) now bans fits =
    let live = ban_gc now bans in
    let gc = length-ban_gc now bans in
    if-elim {A = List Ban} (λ bs. length bs ≤ ban_cap) (has_ban (c ∷ ip) live) _ _
      (λ _. omega (arith, length-renew_ban (c ∷ ip) (now + ban_time) live))
      (λ _. elim (Bool-cases (leb ban_cap (length live))) [
        | inl full ↦
            let at_cap : ban_cap ≤ length live = ground arith in
            let e = length-evict live (omega arith) in
            rw full (
              omega (
                arith,
                length-append (evict live)
                    (record { ip = take 45 (c ∷ ip); until = now + ban_time } ∷ []),
              ))
        | inr room ↦
            let below : length live < ban_cap = ground arith in
            rw room (
              omega (
                arith,
                length-append live (record { ip = take 45 (c ∷ ip); until = now + ban_time } ∷ []),
              ))
      ])
