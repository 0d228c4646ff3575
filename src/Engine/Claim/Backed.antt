-- ===== src/Engine/Claim/Backed.antt =====
-- What a completed claim rests on and what it writes: op_claim of protocol/impls/c/src/claim.c.
use native.Mathlib.Nat.{add-div_left}
use namespace_indexer.Common.{
  ◌-◌, ◌/◌, ltb→lt, ℕ, ◌+◌, ◌*◌, ◌≤◌, ◌<◌, ◌≡◌, ◌≢◌, refl, ap, ◌∙◌, sym, subst, true, false, ◌⊎◌,
  inl, inr, List, none, some, ltb, ◌&&◌, ◌||◌, ◌==◌, if◌then◌else◌, arith, Bool-cases, bytes_eq,
  bytes_eq_iff, Option-cases, OnSome, OnSome-guard, OnSome-bind, OnSome-result, OnSome-imp,
}
use namespace_indexer.Engine.Const.{billing_unit, lease_quantum}
use namespace_indexer.Engine.Types.{
  SmAction, SmNameRow, SmCommit, SmClaimWin, SmState, SmTxCtx, is_owned,
}
use namespace_indexer.Engine.Name.{name_valid}
use namespace_indexer.Engine.Table.{find_name, put_row, add_name, zero_row, find_scratch}
use namespace_indexer.Engine.Table.Laws.{find_name-name, find_name-put_row, find_name-add_name}
use namespace_indexer.Engine.Lease.{raw_t, headroom, lease_covers_day}
use namespace_indexer.Engine.Lease.Single.{bought, find_name-waterfill_single}
use namespace_indexer.Engine.Claim.{
  commit_preimage, earliest_commit, claimed_row, finish_claim, displace, mint, op_claim,
}
use namespace_indexer.Engine.Claim.Commits.{
  NotAfter, Before, Opens, Scanned, earliest_commit-Scanned,
}

at_least_one : (d n : ℕ) → 0 < d → d ≤ n → 1 ≤ n / d
at_least_one d n pos le =
    let split : d + (n - d) ≡ n = omega arith in
    let step : n / d ≡ (n - d) / d + 1 = ap (λ m. m / d) (sym split) ∙ add-div_left (n - d) pos in
    omega (arith, step)

Before-test : (h t h' t' : ℕ) → ltb h h' || h == h' && ltb t t' ≡ true → Before (h, t) (h', t')
Before-test h t h' t' e = elim (Bool-cases (ltb h h')) [
  | inl lower ↦ inl (ltb→lt h h' lower)
  | inr level ↦ inr (ground arith, ground arith)
]

-- The lease that a covering burn buys is a day at least.
covered :
    (now burn rate : ℕ) (r : SmNameRow)
    → lease_covers_day burn rate ≡ true
    → r.lease_expiry ≡ now
    → now + billing_unit ≤ (bought now rate burn r).lease_expiry
unfolding lease_covers_day bought raw_t headroom
covered now burn rate r covers fresh =
    let quantum = if rate == 0 then 1 else rate in
    let some_rate : 1 ≤ quantum = ground arith in
    let enough : quantum * billing_unit ≤ burn * lease_quantum = ground arith in
    let day : 1 ≤ burn * lease_quantum / (quantum * billing_unit) =
      at_least_one (quantum * billing_unit) (burn * lease_quantum) (omega (arith, some_rate))
        enough in
    omega (arith, day, fresh)

-- What is found after the shared end of both branches.
find_name-finish_claim :
    (n : List ℕ) (cx : SmTxCtx) (a : SmAction) (ch ti event : ℕ) (r q : SmNameRow) (s : SmState)
    → find_name r.name s.names ≡ some q
    → find_name n (finish_claim cx a ch ti event r s).names ≡ (
        if bytes_eq r.name n
        then some (bought cx.mtp cx.rate cx.car_value r)
        else find_name n s.names)
unfolding finish_claim
find_name-finish_claim n cx a ch ti event r q s found =
    find_name-waterfill_single n cx.mtp cx.rate cx.car_value r q s found

-- Who holds the name before the claim: nobody, or the owner of a claim of this block that is backed
-- by a later commit.
abbrev pub Yields : SmState → SmAction → ℕ × ℕ → Type 0
Yields s a p =
    (find_name a.name s.names ≡ none)
    ⊎ ((row : SmNameRow) × (scr : SmClaimWin) × (find_name a.name s.names ≡ some row)
        × (find_scratch a.name s.claimsc ≡ some scr)
        × (row.owner ≡ scr.owner)
        × Before p (scr.commit_height, scr.commit_tx_index))

-- The claimer's row, and every other name as it was.
pub record Taken (s : SmState) (cx : SmTxCtx) (a : SmAction) (t : SmState) : Type 0 where
  pub row : SmNameRow
  pub there : find_name a.name t.names ≡ some row
  pub owner : row.owner ≡ cx.actor
  pub leased : cx.mtp + billing_unit ≤ row.lease_expiry
  pub others : (n : List ℕ) → n ≢ a.name → find_name n t.names ≡ find_name n s.names

module _ (s : SmState) (cx : SmTxCtx) (a : SmAction) (p : ℕ × ℕ)
    (covers : lease_covers_day cx.car_value cx.rate ≡ true) where
  taken :
      (event : ℕ) (r q : SmNameRow) (base : SmState)
      → r.name ≡ a.name
      → find_name a.name base.names ≡ some q
      → r.owner ≡ cx.actor
      → r.lease_expiry ≡ cx.mtp
      → ((n : List ℕ) → n ≢ a.name → find_name n base.names ≡ find_name n s.names)
      → Taken s cx a (finish_claim cx a p.0 p.1 event r base)
  taken event r q base same found owner fresh others =
      let at : (n : List ℕ) → _ = λ n.
        find_name-finish_claim n cx a p.0 p.1 event r q base
          (subst (λ m. find_name m base.names ≡ some q) (sym same) found) in
      record {
        row = bought cx.mtp cx.rate cx.car_value r;
        there = at a.name ∙ rw ((bytes_eq_iff r.name a.name).1 same) refl;
        owner = unfold bought in owner;
        leased = covered cx.mtp cx.car_value cx.rate r covers fresh;
        others = λ n d.
            at n
            ∙ rw
                (let e : bytes_eq r.name n ≡ false =
                    ground (arith, bytes_eq_iff r.name n, same, d) in
                  e)
                (others n d);
      }

  mint-Taken : find_name a.name s.names ≡ none → Taken s cx a (mint s cx a p.0 p.1)
  unfolding mint zero_row
  mint-Taken absent =
      let r = claimed_row cx (zero_row a.name) in
      let found : (n : List ℕ) → _ = λ n. find_name-add_name n r s.names absent in
      taken _ r r (record s { names = add_name r s.names }) refl
        (found a.name ∙ rw ((bytes_eq_iff a.name a.name).1 refl) refl) refl refl
        (λ n d.
          found n
          ∙ rw (let e : bytes_eq a.name n ≡ false = ground (arith, bytes_eq_iff a.name n, d) in e)
              refl)

  displace-Taken :
      (row : SmNameRow)
      → find_name a.name s.names ≡ some row
      → OnSome (λ t. Taken s cx a t × Yields s a p) (displace s cx a p.0 p.1 row)
  unfolding displace
  displace-Taken row there =
      let P : SmState → Type 0 = λ t. Taken s cx a t × Yields s a p in
      let same : row.name ≡ a.name = find_name-name a.name s.names row there in
      let found : (n : List ℕ) → _ = λ n.
        find_name-put_row n (claimed_row cx row) s.names row
          (subst (λ m. find_name m s.names ≡ some row) (sym same) there) in
      OnSome-bind P (find_scratch a.name s.claimsc) _ λ scr scratch.
        OnSome-guard P (is_owned row.st && row.owner == scr.owner) _ λ held.
          OnSome-guard P
            (ltb p.0 scr.commit_height || p.0 == scr.commit_height && ltb p.1 scr.commit_tx_index) _
            λ wins. (
              taken _ (claimed_row cx row) (claimed_row cx row)
                  (record s { names = put_row (claimed_row cx row) s.names }) same
                  (found a.name ∙ rw ((bytes_eq_iff row.name a.name).1 same) refl) refl refl
                  (λ n d.
                    found n
                    ∙ rw
                        (let e : bytes_eq row.name n ≡ false =
                            ground (arith, bytes_eq_iff row.name n, same, d) in
                          e)
                        refl),
              inr (
                row,
                scr,
                there,
                scratch,
                ground arith,
                Before-test p.0 p.1 scr.commit_height scr.commit_tx_index wins,
              ),
            )

module _ (sha256 : List ℕ → ℕ) (s : SmState) (cx : SmTxCtx) (a : SmAction) where
  -- The hash that a commit must carry to open the claim.
  abbrev pub opening : ℕ
  opening = sha256 (commit_preimage a.salt a.name cx.actor)

  -- A completed CLAIM.
  pub record Claimed (t : SmState) : Type 0 where
    pub valid : name_valid a.name ≡ true
    pub place : ℕ × ℕ
    pub backed :
        (i : ℕ) × (c : SmCommit) × Opens cx.height opening s.commits i c
        × (place ≡ (c.commit_height, c.tx_index))
    pub first :
        (i : ℕ) (c : SmCommit)
        → Opens cx.height opening s.commits i c
        → NotAfter place (c.commit_height, c.tx_index)
    pub covers : lease_covers_day cx.car_value cx.rate ≡ true
    pub taken : Taken s cx a t
    pub yields : Yields s a place

  backed_by :
      (p : ℕ × ℕ)
      → earliest_commit cx.height opening s.commits none ≡ some p
      → Scanned cx.height opening none s.commits p
  backed_by p e =
      OnSome-result (Scanned cx.height opening none s.commits)
        (earliest_commit cx.height opening s.commits none) p
        (earliest_commit-Scanned cx.height opening s.commits none) e

  claimed :
      (p : ℕ × ℕ) (t : SmState)
      → name_valid a.name ≡ true
      → Scanned cx.height opening none s.commits p
      → lease_covers_day cx.car_value cx.rate ≡ true
      → Taken s cx a t
      → Yields s a p
      → Claimed t
  claimed p t valid h covers taken yields = record {
    valid = valid;
    place = p;
    backed = elim h.from [ inl e ↦ absurd (ground arith) | inr found ↦ found ];
    first = h.first;
    covers = covers;
    taken = taken;
    yields = yields;
  }

  op_claim-cases : OnSome Claimed (op_claim sha256 s cx a)
  unfolding op_claim
  op_claim-cases = OnSome-guard Claimed (name_valid a.name) _ λ valid.
      OnSome-bind Claimed (earliest_commit cx.height opening s.commits none) _ λ p scan.
        OnSome-guard Claimed (lease_covers_day cx.car_value cx.rate) _ λ covers.
          elim (Option-cases (find_name a.name s.names)) [
            | inl absent ↦ rw absent (
                claimed p _ valid (backed_by p scan) covers (mint-Taken s cx a p covers absent)
                  (inl absent))
            | inr (row, there) ↦ rw there (
                OnSome-imp (λ t. Taken s cx a t × Yields s a p) Claimed
                  (λ t h. claimed p t valid (backed_by p scan) covers h.0 h.1) _
                  (displace-Taken s cx a p covers row there))
          ]

  -- A CLAIM that goes through is for a valid name and burns at least a day of lease. Some commit
  -- of an earlier block carries the hash of its salt, name and claimer, and the claim counts from
  -- the first such commit, by height and then by transaction. The name had no row, or was held
  -- under a claim of this block that counts from a later commit. Then the claimer owns the name,
  -- leased for at least a day from the block's time, and every other name is as before.
  pub op_claim-Claimed : (t : SmState) → op_claim sha256 s cx a ≡ some t → Claimed t
  op_claim-Claimed t h = OnSome-result Claimed (op_claim sha256 s cx a) t op_claim-cases h
