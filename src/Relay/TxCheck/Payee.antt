-- ===== src/Relay/TxCheck/Payee.antt =====
-- The payee scripts of src/chain.c, against the templates written out byte by byte.
use namespace_indexer.Common.{
  ℕ, zero, suc, subst, length-append, ◌+◌, ◌≡◌, refl, ap, ◌∙◌, ◌⊎◌, inl, inr, ◌&&◌, List, [], ◌∷◌,
  ◌++◌, some, ◌==◌, Bool-cases, arith, length, take, drop, le_read,
}
use namespace_indexer.Engine.Name.{byte_at}
use namespace_indexer.Chain.Script.{script_payee}

-- DUP HASH160, a push of 20 bytes, EQUALVERIFY CHECKSIG.
abbrev pub p2pkh_script : List ℕ → List ℕ
p2pkh_script h = 0x76 ∷ 0xA9 ∷ 0x14 ∷ (h ++ 0x88 ∷ 0xAC ∷ [])

-- HASH160, a push of 20 bytes, EQUAL.
abbrev pub p2sh_script : List ℕ → List ℕ
p2sh_script h = 0xA9 ∷ 0x14 ∷ (h ++ 0x87 ∷ [])

-- A script that pays to the hash of a key or of a script.
abbrev pub PayeeScript : List ℕ → Type 0
PayeeScript spk = (h : List ℕ) × (length h ≡ 20) × ((spk ≡ p2pkh_script h) ⊎ (spk ≡ p2sh_script h))

-- Bytes that end in the given ones, by their number and the bytes at the end.
one_last :
    (n : ℕ) (xs : List ℕ) (a : ℕ)
    → length xs ≡ suc n
    → byte_at xs n ≡ a
    → (h : List ℕ) × (length h ≡ n) × (xs ≡ h ++ a ∷ [])
one_last n [] a l e = absurd (omega arith)
one_last zero (x ∷ []) a l e = ([], refl, ap (λ y. y ∷ []) e)
one_last zero (x ∷ y ∷ xs) a l e = absurd (omega arith)
one_last (suc n) (x ∷ xs) a l e =
    let (h, k, s) = one_last n xs a (omega arith) e in (x ∷ h, ap suc k, ap (◌∷◌ x) s)

two_last :
    (n : ℕ) (xs : List ℕ) (a b : ℕ)
    → length xs ≡ 2 + n
    → byte_at xs n ≡ a
    → byte_at xs (suc n) ≡ b
    → (h : List ℕ) × (length h ≡ n) × (xs ≡ h ++ a ∷ b ∷ [])
two_last n [] a b l d e = absurd (omega arith)
two_last zero (x ∷ []) a b l d e = absurd (omega arith)
two_last zero (x ∷ y ∷ []) a b l d e = ([], refl, ap (λ u. u ∷ y ∷ []) d ∙ ap (λ v. a ∷ v ∷ []) e)
two_last zero (x ∷ y ∷ z ∷ xs) a b l d e = absurd (omega arith)
two_last (suc n) (x ∷ xs) a b l d e =
    let (h, k, s) = two_last n xs a b (omega arith) d e in (x ∷ h, ap suc k, ap (◌∷◌ x) s)

byte_at-append : (h : List ℕ) (a : ℕ) (t : List ℕ) → byte_at (h ++ a ∷ t) (length h) ≡ a
byte_at-append [] a t = refl
byte_at-append (x ∷ h) a t = byte_at-append h a t

byte_at-append_suc :
    (h : List ℕ) (a b : ℕ) (t : List ℕ) → byte_at (h ++ a ∷ b ∷ t) (suc (length h)) ≡ b
byte_at-append_suc [] a b t = refl
byte_at-append_suc (x ∷ h) a b t = byte_at-append_suc h a b t

p2pkh_paid :
    (h : List ℕ) → length h ≡ 20 → (payee : ℕ × ℕ) × (script_payee (p2pkh_script h) ≡ some payee)
unfolding script_payee
p2pkh_paid h l =
    let size : length (p2pkh_script h) ≡ 25 = omega (arith, length-append h (0x88 ∷ 0xAC ∷ [])) in
    let x : byte_at (p2pkh_script h) 23 ≡ 0x88 =
      subst (λ n. byte_at (h ++ 0x88 ∷ 0xAC ∷ []) n ≡ 0x88) l (byte_at-append h 0x88 (0xAC ∷ [])) in
    let y : byte_at (p2pkh_script h) 24 ≡ 0xAC =
      subst (λ n. byte_at (h ++ 0x88 ∷ 0xAC ∷ []) (suc n) ≡ 0xAC) l
        (byte_at-append_suc h 0x88 0xAC []) in
    ((le_read (take 20 (drop 3 (p2pkh_script h))), 0), ground arith)

p2sh_paid :
    (h : List ℕ) → length h ≡ 20 → (payee : ℕ × ℕ) × (script_payee (p2sh_script h) ≡ some payee)
unfolding script_payee
p2sh_paid h l =
    let size : length (p2sh_script h) ≡ 23 = omega (arith, length-append h (0x87 ∷ [])) in
    let x : byte_at (p2sh_script h) 22 ≡ 0x87 =
      subst (λ n. byte_at (h ++ 0x87 ∷ []) n ≡ 0x87) l (byte_at-append h 0x87 []) in
    ((le_read (take 20 (drop 2 (p2sh_script h))), 1), ground arith)

p2pkh_read :
    (spk : List ℕ)
    → length spk ≡ 25
    → byte_at spk 0 ≡ 0x76
    → byte_at spk 1 ≡ 0xA9
    → byte_at spk 2 ≡ 0x14
    → byte_at spk 23 ≡ 0x88
    → byte_at spk 24 ≡ 0xAC
    → PayeeScript spk
p2pkh_read (x ∷ y ∷ z ∷ s) l a b c d e =
    let (h, k, t) = two_last 20 s 0x88 0xAC (omega arith) d e in (h, k, inl (rw (a, b, c, t) refl))
p2pkh_read [] l a b c d e = absurd (omega arith)
p2pkh_read (x ∷ []) l a b c d e = absurd (omega arith)
p2pkh_read (x ∷ y ∷ []) l a b c d e = absurd (omega arith)

p2sh_read :
    (spk : List ℕ)
    → length spk ≡ 23
    → byte_at spk 0 ≡ 0xA9
    → byte_at spk 1 ≡ 0x14
    → byte_at spk 22 ≡ 0x87
    → PayeeScript spk
p2sh_read (x ∷ y ∷ s) l a b d =
    let (h, k, t) = one_last 20 s 0x87 (omega arith) d in (h, k, inr (rw (a, b, t) refl))
p2sh_read [] l a b d = absurd (omega arith)
p2sh_read (x ∷ []) l a b d = absurd (omega arith)

-- The scripts that are read as payees are those of the two templates.
pub script_payee_read :
    (spk : List ℕ) (payee : ℕ × ℕ) → script_payee spk ≡ some payee → PayeeScript spk
unfolding script_payee
script_payee_read spk payee h =
    elim (Bool-cases (
      length spk == 25
      && byte_at spk 0 == 0x76
      && byte_at spk 1 == 0xA9
      && byte_at spk 2 == 0x14
      && byte_at spk 23 == 0x88
      && byte_at spk 24 == 0xAC)) [
        | inl e ↦
            p2pkh_read spk (ground arith) (ground arith) (ground arith) (ground arith)
              (ground arith) (ground arith)
        | inr n ↦
            elim (Bool-cases (
              length spk == 23
              && byte_at spk 0 == 0xA9
              && byte_at spk 1 == 0x14
              && byte_at spk 22 == 0x87)) [
                | inl e ↦ p2sh_read spk (ground arith) (ground arith) (ground arith) (ground arith)
                | inr m ↦ absurd (ground arith)
              ]
      ]

pub script_payee_of :
    (spk : List ℕ) → PayeeScript spk → (payee : ℕ × ℕ) × (script_payee spk ≡ some payee)
script_payee_of spk (h, l, inl e) =
    let (payee, k) = p2pkh_paid h l in (payee, ap script_payee e ∙ k)
script_payee_of spk (h, l, inr e) = let (payee, k) = p2sh_paid h l in (payee, ap script_payee e ∙ k)
