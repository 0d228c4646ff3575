-- ===== src/Chain/Script/Exact.antt =====
-- The scripts that src/chain.c takes for carriers and payees, against their templates.
use namespace_indexer.Common.{
  ℕ, suc, ◌+◌, ◌*◌, ◌/◌, ◌%◌, ◌≤◌, ◌≡◌, refl, ap, sym, ◌∙◌, ◌↔◌, subst, true, false, not, ◌&&◌,
  ◌||◌, inl, inr, List, [], ◌∷◌, ◌++◌, some, ltb, leb, ◌==◌, if◌then◌else◌, if-elim, Bool-cases,
  arith, OnSome, OnSome-guard, OnSome-result, All, length, take, drop, take_whole, le_write,
}
use namespace_indexer.Engine.Codec.Layout.{Byte, guard-true}
use namespace_indexer.Chain.Script.{
  carrier_max, lone_push, pushdata1, pushdata2, minimal_push, op_return_payload,
}

-- The shortest push of a payload; the empty payload is pushed by nothing.
unfoldable pub push : List ℕ → List ℕ
unfolding le_write
push d =
    if length d == 0
    then []
    else if ltb (length d) 76
    then length d ∷ d
    else if ltb (length d) 256
    then 0x4C ∷ length d ∷ d
    else 0x4D ∷ (le_write 2 (length d) ++ d)

abbrev pub carrier_script : List ℕ → List ℕ
carrier_script d = 0x6A ∷ push d

-- The payload of a script and its template.
abbrev Template : List ℕ → List ℕ → Type 0
Template spk d = (spk ≡ carrier_script d) × (length d ≤ carrier_max)

lone_push-Template :
    (P : List ℕ → Type 0) (len off : ℕ) (spk r : List ℕ)
    → drop off spk ≡ r
    → length spk ≡ off + length r
    → (length r ≡ len → 1 ≤ len → len ≤ carrier_max → P r)
    → OnSome P (lone_push len off spk)
unfolding lone_push
lone_push-Template P len off spk r left size k =
    OnSome-guard P (not (len == 0 || ltb carrier_max len)) _ λ range.
      OnSome-guard P (off + len == length spk) _ λ exact.
        let whole : length r ≡ len = ground arith in
        let same : r ≡ take len (drop off spk) =
          sym (take_whole len r whole) ∙ ap (take len) (sym left) in
        subst P same (k whole (ground arith) (ground arith))

-- A push of each kind, behind the opcode of the script.
direct-Template :
    (x op : ℕ) (r : List ℕ)
    → x ≡ 0x6A
    → leb 0x01 op && leb op 0x4B ≡ true
    → OnSome (Template (x ∷ op ∷ r)) (lone_push op 2 (x ∷ op ∷ r))
direct-Template x op r e range =
    lone_push-Template (Template (x ∷ op ∷ r)) op 2 (x ∷ op ∷ r) r refl (omega arith)
      λ whole low high. unfold push in (ground arith, omega arith)

pushdata1-Template :
    (x op : ℕ) (r : List ℕ)
    → x ≡ 0x6A
    → op ≡ 0x4C
    → All Byte r
    → OnSome (Template (x ∷ op ∷ r)) (pushdata1 (x ∷ op ∷ r))
unfolding pushdata1
pushdata1-Template x op [] e f bytes = tt
pushdata1-Template x op (len ∷ r) e f bytes =
    let spk = x ∷ op ∷ len ∷ r in
    OnSome-guard (Template spk) (not (leb (length spk) 2)) _ λ _.
      OnSome-guard (Template spk) (not (ltb len 76)) _ λ wide.
        lone_push-Template (Template spk) len 3 spk r refl (omega arith)
          λ whole low high. let byte = bytes.0 in unfold push in (ground arith, omega arith)

pushdata2-Template :
    (x op : ℕ) (r : List ℕ)
    → x ≡ 0x6A
    → op ≡ 0x4D
    → All Byte r
    → OnSome (Template (x ∷ op ∷ r)) (pushdata2 (x ∷ op ∷ r))
unfolding pushdata2
pushdata2-Template x op [] e f bytes = tt
pushdata2-Template x op (l ∷ []) e f bytes = tt
pushdata2-Template x op (l ∷ h ∷ r) e f bytes =
    let spk = x ∷ op ∷ l ∷ h ∷ r in
    OnSome-guard (Template spk) (not (leb (length spk) 3)) _ λ _.
      OnSome-guard (Template spk) (not (ltb (l + 256 * h) 256)) _ λ wide.
        lone_push-Template (Template spk) (l + 256 * h) 4 spk r refl (omega arith) λ whole low high.
          let low_byte = bytes.0 in
          let high_byte = bytes.1.0 in unfold push in (ground arith, omega arith)

payload-Template : (spk : List ℕ) → All Byte spk → OnSome (Template spk) (op_return_payload spk)
unfolding op_return_payload minimal_push
payload-Template [] bytes = tt
payload-Template (x ∷ []) bytes =
    OnSome-guard (Template (x ∷ [])) (x == 0x6A) _ λ e. unfold push in (ground arith, omega arith)
payload-Template (x ∷ op ∷ r) bytes =
    let spk = x ∷ op ∷ r in
    let P = OnSome (Template spk) in
    OnSome-guard (Template spk) (not (ltb (length spk) 1) && x == 0x6A) _ λ start.
      let first : x ≡ 0x6A = ground arith in
      if-elim P (leb (length spk) 1) _ _ (λ short. absurd (ground arith))
        λ _.
          if-elim P (leb 0x01 op && leb op 0x4B) _ _ (λ range. direct-Template x op r first range)
            λ _.
              if-elim P (op == 0x4C) _ _
                (λ e. pushdata1-Template x op r first (ground arith) bytes.1.1)
                λ _.
                  if-elim P (op == 0x4D) _ _
                    (λ e. pushdata2-Template x op r first (ground arith) bytes.1.1) λ _. tt

lone_push-hit :
    (off : ℕ) (spk d : List ℕ)
    → drop off spk ≡ d
    → length spk ≡ off + length d
    → 1 ≤ length d
    → length d ≤ carrier_max
    → lone_push (length d) off spk ≡ some d
unfolding lone_push
lone_push-hit off spk d left size low high =
    guard-true (not (length d == 0 || ltb carrier_max (length d))) _ (ground arith)
    ∙ guard-true (off + length d == length spk) _ (ground arith)
    ∙ ap some (ap (take (length d)) left ∙ take_whole (length d) d refl)

module _ (d : List ℕ) (high : length d ≤ carrier_max) where
  minimal_push-hit : minimal_push (carrier_script d) ≡ some d
  unfolding minimal_push push pushdata1 pushdata2
  minimal_push-hit = elim (Bool-cases (length d == 0)) [
    | inl none_left ↦ rw none_left (ap some (sym (empty d (ground arith))))
    | inr n0 ↦ elim (Bool-cases (ltb (length d) 76)) [
      | inl direct ↦
          rw (n0, direct)
            (rw (let e : leb (suc (suc (length d))) 1 ≡ false = ground arith in e) (
              rw (let e : leb 1 (length d) && leb (length d) 0x4B ≡ true = ground arith in e)
                (lone_push-hit 2 (0x6A ∷ length d ∷ d) d refl (omega arith) (ground arith) high)))
      | inr n1 ↦ elim (Bool-cases (ltb (length d) 256)) [
        | inl one ↦
            rw (n0, n1, one)
              (rw (let e : leb (suc (suc (suc (length d)))) 1 ≡ false = ground arith in e) (
                guard-true (not (leb (suc (suc (suc (length d)))) 2)) _ (ground arith)
                ∙ guard-true (not (ltb (length d) 76)) _ (ground arith)
                ∙ lone_push-hit 3 (0x6A ∷ 0x4C ∷ length d ∷ d) d refl (omega arith) (ground arith)
                    high))
        | inr n2 ↦
            let l = length d % 256 in
            let h = length d / 256 % 256 in
            let wide : l + 256 * h ≡ length d = omega arith in
            rw (n0, n1, n2)
              (rw (let e : leb (suc (suc (suc (suc (length d))))) 1 ≡ false = ground arith in e) (
                guard-true (not (leb (suc (suc (suc (suc (length d))))) 3)) _ (ground arith)
                ∙ guard-true (not (ltb (l + 256 * h) 256)) _ (ground arith)
                ∙ ap (λ k. lone_push k 4 (0x6A ∷ 0x4D ∷ l ∷ h ∷ d)) wide
                ∙ lone_push-hit 4 (0x6A ∷ 0x4D ∷ l ∷ h ∷ d) d refl (omega arith) (ground arith)
                    high))
      ]
    ]
  ]
    where
      empty : (xs : List ℕ) → length xs ≡ 0 → xs ≡ []
      empty [] h = refl
      empty (x ∷ xs) h = absurd (omega arith)

  payload-carrier_script : op_return_payload (carrier_script d) ≡ some d
  unfolding op_return_payload
  payload-carrier_script =
      guard-true (not (ltb (length (carrier_script d)) 1) && true) _ (ground arith)
      ∙ minimal_push-hit

-- A script of bytes carries a payload exactly when it is OP_RETURN and the shortest push of that
-- payload alone, which has the bytes of the carrier's ceiling at most.
pub op_return_payload_iff :
    (spk d : List ℕ)
    → All Byte spk
    → (op_return_payload spk ≡ some d) ↔ ((spk ≡ carrier_script d) × (length d ≤ carrier_max))
op_return_payload_iff spk d bytes = (
  λ h. OnSome-result (Template spk) (op_return_payload spk) d (payload-Template spk bytes) h,
  λ t. ap op_return_payload t.0 ∙ payload-carrier_script d t.1,
)
