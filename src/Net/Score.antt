-- ===== src/Net/Score.antt =====
-- The score of a peer in src/net_policy.c over a sequence of offences.
use namespace_indexer.Common.{
  ℕ, ◌+◌, ◌*◌, ◌≤◌, ◌<◌, ◌≡◌, refl, ap, ◌∙◌, Bool, true, false, ◌&&◌, List, [], ◌∷◌, ltb, leb, ◌==◌,
  if◌then◌else◌, Bool-cases, inl, inr, arith,
}
use namespace_indexer.Net.{ban_score, net_policy_score_add}

-- How often the additions report that the limit is reached, from a score on.
unfoldable pub reports : List ℕ → ℕ → ℕ
unfolding net_policy_score_add
reports [] score = 0
reports (n ∷ ns) score =
    let answer = net_policy_score_add score n in
    let rest = reports ns answer.1 in if answer.0 then 1 + rest else rest

abbrev pub sum : List ℕ → ℕ
sum [] = 0
sum (n ∷ ns) = n + sum ns

and_true : (b : Bool) → b && true ≡ b
and_true true = refl
and_true false = refl

module _ (score n : ℕ) (low : score ≤ ban_score * 4) where
  score_below : score + n < ban_score → net_policy_score_add score n ≡ (false, score + n)
  unfolding net_policy_score_add
  score_below h = elim (Bool-cases (n == 0)) [
    | inl e ↦ rw e (ap (λ m. (false, m)) (let same : score ≡ score + n = ground arith in same))
    | inr e ↦
        let small : ltb (ban_score * 4) (score + n) ≡ false = ground arith in
        let under : leb ban_score (score + n) ≡ false = ground arith in
        let first : ltb score ban_score ≡ true = ground arith in rw (e, small, under, first) refl
  ]

  -- Once the sum is past the limit, so is the score, and it is reported where it was not before.
  score_past :
      ban_score ≤ score + n
      → (m : ℕ) × (net_policy_score_add score n ≡ (ltb score ban_score, m))
        × (ban_score ≤ m)
        × (m ≤ ban_score * 4)
  unfolding net_policy_score_add
  score_past h = elim (Bool-cases (n == 0)) [
    | inl e ↦
        let first : ltb score ban_score ≡ false = ground arith in
        (score, rw (e, first) refl, ground arith, low)
    | inr e ↦ elim (Bool-cases (ltb (ban_score * 4) (score + n))) [
      | inl large ↦ (
        ban_score * 4,
        rw (e, large) (ap (λ b. (b, 400)) (and_true (ltb score 100))),
        omega arith,
        omega arith,
      )
      | inr small ↦
          let over : leb ban_score (score + n) ≡ true = ground arith in
          (
            score + n,
            rw (e, small, over) (ap (λ b. (b, score + n)) (and_true (ltb score 100))),
            h,
            ground arith,
          )
    ]
  ]

-- Past the limit nothing is reported.
quiet : (ns : List ℕ) (score : ℕ) → ban_score ≤ score → score ≤ ban_score * 4 → reports ns score ≡ 0
unfolding reports
quiet [] score h k = refl
quiet (n ∷ ns) score h k =
    let (m, e, over, cap) = score_past score n k (omega arith) in
    let first : ltb score ban_score ≡ false = ground arith in rw (e, first) (quiet ns m over cap)

-- From a score below the limit, the additions report once that it is reached if they add up to it,
-- and never if they do not.
pub reports_once :
    (ns : List ℕ) (score : ℕ)
    → score < ban_score
    → reports ns score ≡ (if leb ban_score (score + sum ns) then 1 else 0)
unfolding reports
reports_once [] score h = ground arith
reports_once (n ∷ ns) score h = elim (Bool-cases (leb ban_score (score + n))) [
  | inl past ↦
      let (m, e, over, cap) = score_past score n (omega arith) (ground arith) in
      let first : ltb score ban_score ≡ true = ground arith in
      let all : leb ban_score (score + (n + sum ns)) ≡ true = ground arith in
      rw (e, first, all) (ap (λ r. 1 + r) (quiet ns m over cap))
  | inr below ↦
      let e = score_below score n (omega arith) (ground arith) in
      let same : score + n + sum ns ≡ score + (n + sum ns) = omega arith in
      rw e (
        reports_once ns (score + n) (ground arith)
        ∙ ap (λ t. if leb ban_score t then 1 else 0) same)
]
