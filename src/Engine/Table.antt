-- ===== src/Engine/Table.antt =====
-- The tables of the fold state: protocol/impls/c/src/state.c, and the claim scratch of claim.c.
-- A pointer to a row is modelled by the row itself: it is found by its name, and `put_row` writes
-- it back to the first row of that name, which is the row that the pointer came from.
pub mod Laws
pub mod Bumps
use namespace_indexer.Common.{
  ℕ, zero, suc, ◌+◌, ◌≡◌, Bool, true, false, List, [], ◌∷◌, ◌++◌, Option, none, some, ltb, ◌==◌,
  if◌then◌else◌, bytes_eq, replicate,
}
use namespace_indexer.Engine.Types.{SmNameRow, SmNameState, SmCommit, SmMut, SmClaimWin, SmState}

-- `calloc` and the height of activation.
unfoldable pub new_state : ℕ → SmState
new_state activation = record {
  activation_height = activation;
  cur_height = 0;
  cur_mtp = 0;
  cur_rate = 0;
  names = [];
  commits = [];
  muts = [];
  claimsc = [];
  ev = replicate 16 0;
}

unfoldable pub clear : SmState → SmState
clear s = record s {
  names = [];
  commits = [];
  muts = [];
  claimsc = [];
  cur_height = 0;
  cur_mtp = 0;
  cur_rate = 0;
}

unfoldable pub find_name : List ℕ → List SmNameRow → Option SmNameRow
find_name n [] = none
find_name n (r ∷ rs) = if bytes_eq r.name n then some r else find_name n rs

-- A write through a row pointer.
unfoldable pub put_row : SmNameRow → List SmNameRow → List SmNameRow
put_row r [] = []
put_row r (q ∷ rs) = if bytes_eq q.name r.name then r ∷ rs else q ∷ put_row r rs

-- A fresh row, all zero but for its name.
unfoldable pub zero_row : List ℕ → SmNameRow
zero_row n = record {
  name = n;
  owner = 0;
  owner_type = 0;
  lease_expiry = 0;
  st = SmNameState.owned;
  seller = 0;
  seller_type = 0;
  price = 0;
  offer_expiry = 0;
  buyer = 0;
  burn_leg = 0;
  pay_leg = 0;
  reserve_expiry = 0;
}

unfoldable pub add_name : SmNameRow → List SmNameRow → List SmNameRow
add_name r rs = rs ++ r ∷ []

-- An element put behind the first one.
unfoldable pub second {ℓ} : {A : Type ℓ} → A → List A → List A
second x [] = x ∷ []
second x (l ∷ front) = l ∷ x ∷ front

-- The rows behind a freed slot: the last one moves into the slot.
unfoldable pub last_first {ℓ} : {A : Type ℓ} → List A → List A
unfolding second
last_first [] = []
last_first (x ∷ xs) = second x (last_first xs)

unfoldable pub remove_name : List ℕ → List SmNameRow → List SmNameRow
remove_name n [] = []
remove_name n (r ∷ rs) = if bytes_eq r.name n then last_first rs else r ∷ remove_name n rs

unfoldable pub commit_add : ℕ → ℕ → ℕ → ℕ → List SmCommit → List SmCommit
commit_add commitment height txidx time cs =
    cs
    ++ record {
      commitment = commitment;
      commit_height = height;
      tx_index = txidx;
      commit_time = time;
    }
      ∷ []

unfoldable pub last_mutation : ℕ → List SmMut → ℕ
last_mutation owner [] = 0
last_mutation owner (m ∷ ms) = if m.owner == owner then m.height else last_mutation owner ms

unfoldable pub bump_mutation : ℕ → ℕ → List SmMut → List SmMut
bump_mutation owner height [] = record { owner = owner; height = height } ∷ []
bump_mutation owner height (m ∷ ms) =
    if m.owner == owner
    then (if ltb m.height height then record m { height = height } else m) ∷ ms
    else m ∷ bump_mutation owner height ms

unfoldable pub find_scratch : List ℕ → List SmClaimWin → Option SmClaimWin
find_scratch n [] = none
find_scratch n (w ∷ ws) = if bytes_eq w.name n then some w else find_scratch n ws

unfoldable pub set_scratch : SmClaimWin → List SmClaimWin → List SmClaimWin
set_scratch w [] = w ∷ []
set_scratch w (v ∷ ws) = if bytes_eq v.name w.name then w ∷ ws else v ∷ set_scratch w ws

-- `s->ev[i]++`
unfoldable pub count_ev : ℕ → List ℕ → List ℕ
count_ev i [] = []
count_ev zero (e ∷ es) = (e + 1) ∷ es
count_ev (suc i) (e ∷ es) = e ∷ count_ev i es

-- `sm_owns`
unfoldable pub owns : SmState → ℕ → List ℕ → Bool
unfolding find_name
owns s h160 n = elim (find_name n s.names) [
  | none ↦ false
  | some r ↦ elim r.st [ SmNameState.owned ↦ r.owner == h160 | _ ↦ false ]
]
