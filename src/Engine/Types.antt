-- ===== src/Engine/Types.antt =====
-- The data of protocol/impls/c/src/sm.h: transactions, actions, and the fold state.
-- A hash160 and a 32-byte commitment are the little-endian numbers of their bytes; a name and a
-- bitmap are lists of bytes, with their length field as the list's length.
use namespace_indexer.Common.{ℕ, Bool, true, false, List}

-- A section 4 identity with the flag of the parallel array `in_sighash_all`.
pub record SmInput : Type 0 where
  pub h160 : ℕ
  pub type : ℕ
  pub sighash_all : Bool

pub record SmAction : Type 0 where
  pub op : ℕ
  pub name : List ℕ
  pub name_b : List ℕ
  pub commitment : ℕ
  pub salt : List ℕ
  pub addr : ℕ
  pub price : ℕ
  pub window : ℕ
  pub has_anchor : Bool
  pub anchor : ℕ
  pub flags : List ℕ
  pub as_index : ℕ
  pub idx_a : ℕ
  pub idx_b : ℕ

pub data SmCarKind : Type 0 where
  action ignore : SmCarKind

pub record SmCarrier : Type 0 where
  pub kind : SmCarKind
  pub act : SmAction
  pub value : ℕ
  pub vout : ℕ

pub record SmOut : Type 0 where
  pub h160 : ℕ
  pub type : ℕ
  pub value : ℕ
  pub vout : ℕ

pub record SmTx : Type 0 where
  pub txindex : ℕ
  pub inputs : List SmInput
  pub carriers : List SmCarrier
  pub outs : List SmOut

pub data SmNameState : Type 0 where
  owned listed offered reserved : SmNameState

pub record SmNameRow : Type 0 where
  pub name : List ℕ
  pub owner : ℕ
  pub owner_type : ℕ
  pub lease_expiry : ℕ
  pub st : SmNameState
  pub seller : ℕ
  pub seller_type : ℕ
  pub price : ℕ
  pub offer_expiry : ℕ
  pub buyer : ℕ
  pub burn_leg : ℕ
  pub pay_leg : ℕ
  pub reserve_expiry : ℕ

pub record SmCommit : Type 0 where
  pub commitment : ℕ
  pub commit_height : ℕ
  pub tx_index : ℕ
  pub commit_time : ℕ

pub record SmMut : Type 0 where
  pub owner : ℕ
  pub height : ℕ

pub record SmClaimWin : Type 0 where
  pub name : List ℕ
  pub commit_height : ℕ
  pub commit_tx_index : ℕ
  pub owner : ℕ

-- `ev` is the array of coverage counters.
pub record SmState : Type 0 where
  pub activation_height : ℕ
  pub cur_height : ℕ
  pub cur_mtp : ℕ
  pub cur_rate : ℕ
  pub names : List SmNameRow
  pub commits : List SmCommit
  pub muts : List SmMut
  pub claimsc : List SmClaimWin
  pub ev : List ℕ

-- The working context of one transaction. The transaction itself, which `cx.tx` points to, is
-- passed beside it; the id `cx.txid`, which no handler reads, is left out.
pub record SmTxCtx : Type 0 where
  pub height : ℕ
  pub mtp : ℕ
  pub rate : ℕ
  pub txindex : ℕ
  pub actor : ℕ
  pub actor_type : ℕ
  pub actor_valid : Bool
  pub car_value : ℕ
  pub car_vout : ℕ
  pub out_consumed : List Bool

abbrev pub is_owned : SmNameState → Bool
is_owned SmNameState.owned = true
is_owned _ = false

abbrev pub is_listed : SmNameState → Bool
is_listed SmNameState.listed = true
is_listed _ = false

abbrev pub is_offered : SmNameState → Bool
is_offered SmNameState.offered = true
is_offered _ = false

abbrev pub is_reserved : SmNameState → Bool
is_reserved SmNameState.reserved = true
is_reserved _ = false
