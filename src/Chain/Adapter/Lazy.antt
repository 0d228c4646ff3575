-- ===== src/Chain/Adapter/Lazy.antt =====
-- Attribution of the named inputs alone: src/adapter.c.
use namespace_indexer.Common.{
  ℕ, zero, suc, ◌≡◌, refl, ap, sym, ◌∙◌, Bool, true, false, ◌||◌, List, [], ◌∷◌, Option, none, some,
  ◌==◌, if◌then◌else◌, if-elim, All, All-imp, All-snoc, length, set, replicate, get_elem?,
}
use namespace_indexer.Engine.Types.{SmInput, SmTx, SmState}
use namespace_indexer.Engine.Fold.{apply_tx}
use namespace_indexer.Chain.Script.{script_payee, op_return_payload}
use namespace_indexer.Engine.Codec.{decode_payload}
use namespace_indexer.Chain.Tx.{IdxOut, IdxTx}
use namespace_indexer.Chain.Adapter.Inputs.{apply_tx_same}
use namespace_indexer.Chain.Adapter.{
  zero_carrier, is_action, have_carrier, named_by, mark, Gathered, gather_carrier, gather_payee,
  gather_one, gather, attributed, adapt_inputs, adapted, idx_adapt_tx,
}

-- The input at the index, if there is one, is flagged.
IsFlagged : List Bool → ℕ → Type 0
IsFlagged [] k = Unit {0}
IsFlagged (b ∷ bs) zero = b ≡ true
IsFlagged (b ∷ bs) (suc k) = IsFlagged bs k

set_here : (bs : List Bool) (k : ℕ) → IsFlagged (set bs k true) k
unfolding IsFlagged
set_here [] k = tt
set_here (b ∷ bs) zero = refl
set_here (b ∷ bs) (suc k) = set_here bs k

set_keeps : (bs : List Bool) (k i : ℕ) → IsFlagged bs i → IsFlagged (set bs k true) i
unfolding IsFlagged
set_keeps [] k i h = tt
set_keeps (b ∷ bs) zero zero h = refl
set_keeps (b ∷ bs) zero (suc i) h = h
set_keeps (b ∷ bs) (suc k) zero h = h
set_keeps (b ∷ bs) (suc k) (suc i) h = set_keeps bs k i h

mark_keeps : (ks : List ℕ) (bs : List Bool) (i : ℕ) → IsFlagged bs i → IsFlagged (mark ks bs) i
unfolding mark
mark_keeps [] bs i h = h
mark_keeps (k ∷ ks) bs i h = mark_keeps ks (set bs k true) i (set_keeps bs k i h)

mark_all : (ks : List ℕ) (bs : List Bool) → All (IsFlagged (mark ks bs)) ks
unfolding mark
mark_all [] bs = tt
mark_all (k ∷ ks) bs =
    (mark_keeps ks (set bs k true) k (set_here bs k), mark_all ks (set bs k true))

length-set : (bs : List Bool) (k : ℕ) → length (set bs k true) ≡ length bs
length-set [] k = refl
length-set (b ∷ bs) zero = refl
length-set (b ∷ bs) (suc k) = ap suc (length-set bs k)

length-mark : (ks : List ℕ) (bs : List Bool) → length (mark ks bs) ≡ length bs
unfolding mark
length-mark [] bs = refl
length-mark (k ∷ ks) bs = length-mark ks (set bs k true) ∙ length-set bs k

-- The inputs that the carriers name are flagged, among n.
record Covered (n : ℕ) (g : Gathered) : Type 0 where
  flags : length g.named ≡ n
  named : All (λ c. All (IsFlagged g.named) (named_by c.act)) g.carriers

gather_carrier-Covered :
    (n : ℕ) (o : IdxOut) (p : List ℕ) (g : Gathered)
    → Covered n g
    → Covered n (gather_carrier o p g)
unfolding gather_carrier
gather_carrier-Covered n o p g c =
    let car = decode_payload p zero_carrier in
    let ks = named_by car.act in
    if-elim (Covered n) (is_action car.kind) _ _
      (λ _. record {
        flags = length-mark ks g.named ∙ c.flags;
        named =
            All-snoc _ g.carriers _
              (All-imp _ _
                (λ d h. All-imp _ _ (λ i f. mark_keeps ks g.named i f) (named_by d.act) h)
                g.carriers c.named)
              (mark_all ks g.named);
      })
      (λ _. c)

option_elim :
    {A R : Type 0} (P : R → Type 0) (o : Option A) (n : R) (f : A → R)
    → P n
    → ((a : A) → P (f a))
    → P (elim o as (λ _. R) [ none ↦ n | some a ↦ f a ])
option_elim P none n f h k = h
option_elim P (some a) n f h k = k a

gather_payee-Covered :
    (n : ℕ) (o : IdxOut) (g : Gathered) → Covered n g → Covered n (gather_payee o g)
unfolding gather_payee
gather_payee-Covered n o g c =
    option_elim (Covered n) (script_payee o.spk) g _ c
      λ payee. record { flags = c.flags; named = c.named }

gather_one-Covered : (n : ℕ) (o : IdxOut) (g : Gathered) → Covered n g → Covered n (gather_one o g)
unfolding gather_one
gather_one-Covered n o g c =
    option_elim (Covered n) (op_return_payload o.spk) (gather_payee o g) (λ p. gather_carrier o p g)
      (gather_payee-Covered n o g c) (λ p. gather_carrier-Covered n o p g c)

gather-Covered : (n : ℕ) (os : List IdxOut) (g : Gathered) → Covered n g → Covered n (gather os g)
unfolding gather
gather-Covered n [] g c = c
gather-Covered n (o ∷ os) g c = gather-Covered n os (gather_one o g) (gather_one-Covered n o g c)

abbrev no_flags : ℕ → Gathered
no_flags n = record { named = replicate n false; carriers = []; outs = [] }

length-replicate : (n : ℕ) → length (replicate n false) ≡ n
length-replicate zero = refl
length-replicate (suc n) = ap suc (length-replicate n)

no_flags-Covered : (n : ℕ) → Covered n (no_flags n)
no_flags-Covered n = record { flags = length-replicate n; named = tt }

if_any : {A : Type 0} (b : Bool) (x y : A) → (if b || true then x else y) ≡ x
if_any true x y = refl
if_any false x y = refl

module _ (attribute : List ℕ → ℕ → Option (ℕ × ℕ)) where
  -- Every input attributed: n of them, from the k-th on.
  unfoldable pub attribute_all : List ℕ → ℕ → ℕ → List SmInput
  unfolding attributed
  attribute_all raw k zero = []
  attribute_all raw k (suc n) = attributed attribute raw k ∷ attribute_all raw (suc k) n

  flagged_same :
      (raw : List ℕ) (k : ℕ) (bs : List Bool) (i : ℕ)
      → IsFlagged bs i
      → get_elem? (adapt_inputs attribute raw k bs) i
        ≡ get_elem? (attribute_all raw k (length bs)) i
  unfolding adapt_inputs attribute_all IsFlagged
  flagged_same raw k [] i h = refl
  flagged_same raw k (b ∷ bs) zero h = rw h (ap some (if_any (k == 0) _ _))
  flagged_same raw k (b ∷ bs) (suc i) h = flagged_same raw (suc k) bs i h

  first_same :
      (raw : List ℕ) (bs : List Bool)
      → get_elem? (adapt_inputs attribute raw 0 bs) 0
        ≡ get_elem? (attribute_all raw 0 (length bs)) 0
  unfolding adapt_inputs attribute_all
  first_same raw [] = refl
  first_same raw (b ∷ bs) = refl

  -- The transaction with every input attributed.
  unfoldable pub adapted_eagerly : IdxTx → ℕ → SmTx
  unfolding adapted attribute_all
  adapted_eagerly tx txindex = record (adapted attribute tx txindex) {
    inputs = attribute_all tx.raw 0 (length tx.ins);
  }

  -- The fold of a transaction is the one in which every input is attributed: the engine reads no
  -- input that the adapter leaves out.
  pub idx_adapt_tx_eager :
      (sha256 : List ℕ → ℕ) (s : SmState) (tx : IdxTx) (txindex : ℕ)
      → idx_adapt_tx attribute sha256 s tx txindex ≡ (
          if have_carrier tx.outs
          then (apply_tx sha256 s (adapted_eagerly tx txindex), true)
          else (s, false))
  unfolding idx_adapt_tx adapted adapted_eagerly
  idx_adapt_tx_eager sha256 s tx txindex =
      ap (λ t. if have_carrier tx.outs then (t, true) else (s, false)) (sym same)
    where
      n : ℕ
      n = length tx.ins

      g : Gathered
      g = gather tx.outs (record { named = replicate n false; carriers = []; outs = [] })

      covered : Covered n g
      covered = gather-Covered n tx.outs _ (no_flags-Covered n)

      ins : List SmInput
      ins = adapt_inputs attribute tx.raw 0 g.named

      all : List SmInput
      all = attribute_all tx.raw 0 n

      at_flag : (i : ℕ) → IsFlagged g.named i → get_elem? ins i ≡ get_elem? all i
      at_flag i f =
          flagged_same tx.raw 0 g.named i f
          ∙ ap (λ m. get_elem? (attribute_all tx.raw 0 m) i) covered.flags

      same :
          apply_tx sha256 s (adapted_eagerly tx txindex)
          ≡ apply_tx sha256 s (adapted attribute tx txindex)
      same =
          apply_tx_same sha256 (adapted attribute tx txindex) all s
            (first_same tx.raw g.named
              ∙ ap (λ m. get_elem? (attribute_all tx.raw 0 m) 0) covered.flags)
            (All-imp _ _ (λ c. All-imp _ _ at_flag (named_by c.act)) g.carriers covered.named)
