-- ===== src/Engine/Digest/Fields.antt =====
-- What the bytes of one element tell in src/digest.c.
use namespace_indexer.Common.{ℕ, zero, suc, ◌^◌, ◌<◌, ◌≡◌, refl, ap, sym, ◌∙◌, arith, length}
use namespace_indexer.Engine.Types.{SmNameRow, SmNameState, SmCommit, SmMut}
use namespace_indexer.Engine.Digest.{state_code, name_bytes, commit_bytes, mut_bytes}
use namespace_indexer.Engine.Digest.Prefix.{
  Prefix, number-Prefix, text-Prefix, append-Prefix, imp-Prefix,
}

-- The fields of a row fit their widths.
pub record RowFits (r : SmNameRow) : Type 0 where
  pub name : length r.name < 2 ^ 8
  pub owner : r.owner < 2 ^ 160
  pub lease_expiry : r.lease_expiry < 2 ^ 64
  pub seller : r.seller < 2 ^ 160
  pub seller_type : r.seller_type < 2 ^ 8
  pub price : r.price < 2 ^ 64
  pub offer_expiry : r.offer_expiry < 2 ^ 64
  pub buyer : r.buyer < 2 ^ 160
  pub burn_leg : r.burn_leg < 2 ^ 64
  pub pay_leg : r.pay_leg < 2 ^ 64
  pub reserve_expiry : r.reserve_expiry < 2 ^ 64

pub record CommitFits (c : SmCommit) : Type 0 where
  pub commitment : c.commitment < 2 ^ 256
  pub commit_height : c.commit_height < 2 ^ 64
  pub tx_index : c.tx_index < 2 ^ 32
  pub commit_time : c.commit_time < 2 ^ 64

pub record MutFits (m : SmMut) : Type 0 where
  pub owner : m.owner < 2 ^ 160
  pub height : m.height < 2 ^ 64

-- A row but for the type of its owner's address.
abbrev pub untyped : SmNameRow → SmNameRow
untyped r = record r { owner_type = 0 }

state_code_fits : (x : SmNameState) → state_code x < 256
unfolding state_code
state_code_fits SmNameState.owned = omega arith
state_code_fits SmNameState.listed = omega arith
state_code_fits SmNameState.offered = omega arith
state_code_fits SmNameState.reserved = omega arith

state_of : ℕ → SmNameState
state_of zero = SmNameState.owned
state_of (suc zero) = SmNameState.listed
state_of (suc (suc zero)) = SmNameState.offered
state_of (suc (suc (suc n))) = SmNameState.reserved

state_of-state_code : (x : SmNameState) → state_of (state_code x) ≡ x
unfolding state_of state_code
state_of-state_code SmNameState.owned = refl
state_of-state_code SmNameState.listed = refl
state_of-state_code SmNameState.offered = refl
state_of-state_code SmNameState.reserved = refl

state_code_injective : (x y : SmNameState) → state_code x ≡ state_code y → x ≡ y
state_code_injective x y e = sym (state_of-state_code x) ∙ ap state_of e ∙ state_of-state_code y

pub commit_bytes-Prefix : Prefix CommitFits commit_bytes (λ x y. x ≡ y)
unfolding commit_bytes
commit_bytes-Prefix =
    imp-Prefix (λ x y (((a, b), c), d). cc)
      (append-Prefix
        (append-Prefix
          (append-Prefix (number-Prefix 32 (λ c. c.commitment) (λ c f. f.commitment))
            (number-Prefix 8 (λ c. c.commit_height) (λ c f. f.commit_height)))
          (number-Prefix 4 (λ c. c.tx_index) (λ c f. f.tx_index)))
        (number-Prefix 8 (λ c. c.commit_time) (λ c f. f.commit_time)))

pub mut_bytes-Prefix : Prefix MutFits mut_bytes (λ x y. x ≡ y)
unfolding mut_bytes
mut_bytes-Prefix =
    imp-Prefix (λ x y (a, b). cc)
      (append-Prefix (number-Prefix 20 (λ m. m.owner) (λ m f. f.owner))
        (number-Prefix 8 (λ m. m.height) (λ m f. f.height)))

pub name_bytes-Prefix : Prefix RowFits name_bytes (λ x y. untyped x ≡ untyped y)
unfolding name_bytes
name_bytes-Prefix =
    imp-Prefix
      (λ x y (((((((((((a, b), c), d), e), f), g), h), i), j), k), l).
        let same = state_code_injective x.st y.st c in cc)
      (append-Prefix
        (append-Prefix
          (append-Prefix
            (append-Prefix
              (append-Prefix
                (append-Prefix
                  (append-Prefix
                    (append-Prefix
                      (append-Prefix
                        (append-Prefix
                          (append-Prefix (text-Prefix (λ r. r.name) (λ r f. f.name))
                            (number-Prefix 20 (λ r. r.owner) (λ r f. f.owner)))
                          (number-Prefix 1 (λ r. state_code r.st) (λ r f. state_code_fits r.st)))
                        (number-Prefix 8 (λ r. r.lease_expiry) (λ r f. f.lease_expiry)))
                      (number-Prefix 20 (λ r. r.seller) (λ r f. f.seller)))
                    (number-Prefix 1 (λ r. r.seller_type) (λ r f. f.seller_type)))
                  (number-Prefix 8 (λ r. r.price) (λ r f. f.price)))
                (number-Prefix 8 (λ r. r.offer_expiry) (λ r f. f.offer_expiry)))
              (number-Prefix 20 (λ r. r.buyer) (λ r f. f.buyer)))
            (number-Prefix 8 (λ r. r.burn_leg) (λ r f. f.burn_leg)))
          (number-Prefix 8 (λ r. r.pay_leg) (λ r f. f.pay_leg)))
        (number-Prefix 8 (λ r. r.reserve_expiry) (λ r f. f.reserve_expiry)))
