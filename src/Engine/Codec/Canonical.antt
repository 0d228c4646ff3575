-- ===== src/Engine/Codec/Canonical.antt =====
-- The decoder of protocol/impls/c/src/decode.c against its encoder.
use namespace_indexer.Common.{
  ℕ, suc, ◌≡◌, refl, sym, ap, ◌∙◌, subst, true, false, not, ◌&&◌, ◌||◌, List, [], ◌∷◌, Option, some,
  ltb, leb, ◌==◌, ==_iff, if-elim, arith, ◌>>=◌, ◌>>◌, guard, OnSome, OnSome-guard, OnSome-bind,
  OnSome-imp, OnSome-result, All, length, take, drop, length-drop, take-drop, take_whole,
}
use namespace_indexer.Engine.Types.{SmAction}
use namespace_indexer.Engine.Name.{name_valid, byte_at}
use namespace_indexer.Engine.Codec.{
  body_max, flags_max, flags_xfer_max, zero_action, decode_commit, decode_claim, decode_renew,
  decode_transfer, decode_sell, decode_name, decode_transfer_name, decode_release, decode_sell_to,
  decode_as, count_commas, last_comma, decode_trade, is_name_op, decode_action, recognise, fits,
  encode_body, encode_action,
}
use namespace_indexer.Engine.Codec.Layout.{
  Byte, reread, two_parts, guard-true, tail_fits, valid_fits, name_op, at_comma, two_bytes,
}

-- The encoder gives back the bytes.
abbrev Back : ℕ → List ℕ → SmAction → Type 0
Back op b a = (a.op ≡ op) × (encode_body a ≡ some b)

module _ (b : List ℕ) (bytes : All Byte b) where
  commit-Back : OnSome (Back 0x03 b) (decode_commit 0x03 b)
  unfolding decode_commit encode_body
  commit-Back =
      OnSome-guard (Back 0x03 b) (length b == 32) _
        λ len. (refl, ap some (reread 0 32 b bytes (ground arith) ∙ take_whole 32 b (ground arith)))

  claim-Back : OnSome (Back 0x04 b) (decode_claim 0x04 b)
  unfolding decode_claim encode_body
  claim-Back = OnSome-guard (Back 0x04 b) (not (ltb (length b) 33 || ltb 64 (length b))) _ λ len.
      OnSome-guard (Back 0x04 b) (name_valid (drop 32 b)) _ λ valid. (
        refl,
        guard-true _ _ (tail_fits 32 b (ground arith) (ground arith)) ∙ ap some (take-drop 32 b),
      )

  sell-Back : OnSome (Back 0x07 b) (decode_sell 0x07 b)
  unfolding decode_sell encode_body
  sell-Back = OnSome-guard (Back 0x07 b) (not (ltb (length b) 13 || ltb 44 (length b))) _ λ len.
      OnSome-guard (Back 0x07 b) (name_valid (drop 12 b)) _ λ valid. (
        refl,
        let skip = length-drop 8 b in
            guard-true _ _ (tail_fits 12 b (ground arith) (ground arith))
            ∙ rw (reread 0 8 b bytes (ground arith), reread 8 4 b bytes (ground arith))
                (ap some (two_parts 8 4 12 b refl)),
      )

  transfer_name-Back : OnSome (Back 0x02 b) (decode_transfer_name 0x02 b)
  unfolding decode_transfer_name encode_body
  transfer_name-Back =
      OnSome-guard (Back 0x02 b) (not (ltb (length b) 21 || ltb 52 (length b))) _ λ len.
        OnSome-guard (Back 0x02 b) (name_valid (drop 20 b)) _ λ valid. (
          refl,
          guard-true _ _ (tail_fits 20 b (ground arith) (ground arith))
              ∙ rw (reread 0 20 b bytes (ground arith)) (ap some (take-drop 20 b)),
        )

  sell_to-Back : OnSome (Back 0x0C b) (decode_sell_to 0x0C b)
  unfolding decode_sell_to encode_body
  sell_to-Back = OnSome-guard (Back 0x0C b) (not (ltb (length b) 29 || ltb 60 (length b))) _ λ len.
      OnSome-guard (Back 0x0C b) (name_valid (drop 28 b)) _ λ valid. (
        refl,
        let skip = length-drop 8 b in
            guard-true _ _ (tail_fits 28 b (ground arith) (ground arith))
            ∙ rw (reread 0 8 b bytes (ground arith), reread 8 20 b bytes (ground arith))
                (ap some (two_parts 8 20 28 b refl)),
      )

  release-Back : OnSome (Back 0x0A b) (decode_release 0x0A b)
  unfolding decode_release encode_body
  release-Back =
      OnSome-guard (Back 0x0A b) (not (ltb (length b) 6 || ltb body_max (length b))) _ λ len. (
        refl,
        let rest = length-drop 5 b in
            guard-true (not (ltb (length (drop 5 b)) 1 || ltb flags_max (length (drop 5 b)))) _
              (ground arith)
            ∙ rw (reread 0 5 b bytes (ground arith)) (ap some (take-drop 5 b)),
      )

  renew-Back : OnSome (Back 0x05 b) (decode_renew 0x05 b)
  unfolding decode_renew encode_body
  renew-Back =
      if-elim (OnSome (Back 0x05 b)) (length b == 0) _ _
        (λ none_left. (refl, ap some (sym (empty b (ground arith)))))
        λ _.
          if-elim (OnSome (Back 0x05 b)) (length b == 5) _ _
            (λ len.
              (refl, ap some (reread 0 5 b bytes (ground arith) ∙ take_whole 5 b (ground arith))))
            λ _.
              if-elim (OnSome (Back 0x05 b)) (leb 6 (length b) && leb (length b) body_max) _ _
                (λ len.
                  let rest = length-drop 5 b in
                  (
                    refl,
                    rw (let e : (length (drop 5 b) == 0) ≡ false = ground arith in e) (
                        rw
                          (let e : leb 1 (length (drop 5 b)) && leb (length (drop 5 b)) flags_max
                                ≡ true =
                              ground arith in
                            e)
                          (rw (reread 0 5 b bytes (ground arith)) (ap some (take-drop 5 b)))),
                  ))
                (λ _. tt)
    where
      empty : (xs : List ℕ) → length xs ≡ 0 → xs ≡ []
      empty [] h = refl
      empty (x ∷ xs) h = absurd (omega arith)

  transfer-Back : OnSome (Back 0x06 b) (decode_transfer 0x06 b)
  unfolding decode_transfer encode_body
  transfer-Back =
      if-elim (OnSome (Back 0x06 b)) (length b == 20) _ _
        (λ len.
          (refl, ap some (reread 0 20 b bytes (ground arith) ∙ take_whole 20 b (ground arith))))
        λ _.
          if-elim (OnSome (Back 0x06 b)) (leb 26 (length b) && leb (length b) body_max) _ _
            (λ len.
              let rest = length-drop 25 b in
              let skip = length-drop 20 b in
              (
                refl,
                rw
                    (let e : leb 1 (length (drop 25 b)) && leb (length (drop 25 b)) flags_xfer_max
                          ≡ true =
                        ground arith in
                      e)
                    (rw (reread 0 20 b bytes (ground arith), reread 20 5 b bytes (ground arith))
                      (ap some (two_parts 20 5 25 b refl))),
              ))
            (λ _. tt)

  as-Back : OnSome (Back 0x0E b) (decode_as 0x0E b)
  unfolding decode_as encode_body
  as-Back =
      OnSome-guard (Back 0x0E b) (length b == 1) _ λ len. (refl, ap some (single b (ground arith)))
    where
      single : (xs : List ℕ) → length xs ≡ 1 → byte_at xs 0 ∷ [] ≡ xs
      single [] h = absurd (omega arith)
      single (x ∷ []) h = refl
      single (x ∷ y ∷ xs) h = absurd (omega arith)

  name-Back : (op : ℕ) → is_name_op op ≡ true → OnSome (Back op b) (decode_name op b)
  unfolding decode_name encode_body
  name-Back =
      name_op (λ op. OnSome (Back op b) (decode_name op b)) (by_name _ refl) (by_name _ refl)
        (by_name _ refl) (by_name _ refl) (by_name _ refl)
    where
      by_name :
          (op : ℕ)
          → encode_body (record (zero_action op) { name = b }) ≡ (guard (fits b) >> some b)
          → OnSome (Back op b) (decode_name op b)
      by_name op e = OnSome-guard (Back op b) (not (ltb (length b) 1 || ltb 32 (length b))) _ λ len.
          OnSome-guard (Back op b) (name_valid b) _
            λ valid. (refl, e ∙ guard-true (fits b) (some b) len)

  trade-Back : OnSome (Back 0x0F b) (decode_trade 0x0F b)
  unfolding decode_trade encode_body
  trade-Back = OnSome-guard (Back 0x0F b) (not (ltb (length b) 5)) _ λ len.
      OnSome-guard (Back 0x0F b) (count_commas (drop 2 b) == 1) _ λ one.
        OnSome-bind (Back 0x0F b) (last_comma (drop 2 b)) _ λ c comma.
          OnSome-guard (Back 0x0F b) (name_valid (take c (drop 2 b))) _ λ first.
            OnSome-guard (Back 0x0F b) (name_valid (drop (suc c) (drop 2 b))) _ λ second. (
              refl,
              let fits_a = valid_fits (take c (drop 2 b)) first in
                  let fits_b = valid_fits (drop (suc c) (drop 2 b)) second in
                  guard-true (fits (take c (drop 2 b)) && fits (drop (suc c) (drop 2 b))) _
                    (ground arith)
                  ∙ ap (λ t. some (byte_at b 0 ∷ byte_at b 1 ∷ t)) (at_comma (drop 2 b) c comma)
                  ∙ ap some (two_bytes b (ground arith)),
            )

  at_op :
      (k op : ℕ) (D : ℕ → Option SmAction)
      → (op == k) ≡ true
      → OnSome (Back k b) (D k)
      → OnSome (Back op b) (D op)
  at_op k op D e h = subst (λ o. OnSome (Back o b) (D o)) (sym ((==_iff op k).0 e)) h

  decode_action-Back : (op : ℕ) → OnSome (Back op b) (decode_action op b)
  unfolding decode_action
  decode_action-Back op =
      let B = OnSome (Back op b) in
      if-elim B (op == 0x03) _ _ (λ e. at_op 0x03 op (λ o. decode_commit o b) e commit-Back)
        λ _.
          if-elim B (op == 0x04) _ _ (λ e. at_op 0x04 op (λ o. decode_claim o b) e claim-Back)
            λ _.
              if-elim B (op == 0x05) _ _ (λ e. at_op 0x05 op (λ o. decode_renew o b) e renew-Back)
                λ _.
                  if-elim B (op == 0x06) _ _
                    (λ e. at_op 0x06 op (λ o. decode_transfer o b) e transfer-Back)
                    λ _.
                      if-elim B (op == 0x07) _ _
                        (λ e. at_op 0x07 op (λ o. decode_sell o b) e sell-Back)
                        λ _.
                          if-elim B (is_name_op op) _ _ (λ e. name-Back op e)
                            λ _.
                              if-elim B (op == 0x02) _ _
                                (λ e.
                                  at_op 0x02 op (λ o. decode_transfer_name o b) e
                                    transfer_name-Back)
                                λ _.
                                  if-elim B (op == 0x0A) _ _
                                    (λ e. at_op 0x0A op (λ o. decode_release o b) e release-Back)
                                    λ _.
                                      if-elim B (op == 0x0C) _ _
                                        (λ e.
                                          at_op 0x0C op (λ o. decode_sell_to o b) e sell_to-Back)
                                        λ _.
                                          if-elim B (op == 0x0E) _ _
                                            (λ e. at_op 0x0E op (λ o. decode_as o b) e as-Back)
                                            λ _.
                                              if-elim B (op == 0x0F) _ _
                                                (λ e.
                                                  at_op 0x0F op (λ o. decode_trade o b) e
                                                    trade-Back)
                                                λ _. tt

framed :
    (x y z op : ℕ) (b : List ℕ)
    → All Byte b
    → OnSome (λ c. encode_action c ≡ some (x ∷ y ∷ z ∷ op ∷ b)) (recognise (x ∷ y ∷ z ∷ op ∷ b))
unfolding recognise encode_action
framed x y z op b bytes =
    let P : SmAction → Type 0 = λ c. encode_action c ≡ some (x ∷ y ∷ z ∷ op ∷ b) in
    if-elim (OnSome P) (x == 0xFF && y == 0x50 && z == 0x4E) _ _
      (λ prefix.
        if-elim (OnSome P) (leb 0x01 op && leb op 0x0F) _ _
          (λ _.
            OnSome-imp (Back op b) P
              (λ c h.
                ap (λ m. m >>= λ t. some (0xFF ∷ 0x50 ∷ 0x4E ∷ c.op ∷ t)) h.1
                ∙ ap (λ o. some (0xFF ∷ 0x50 ∷ 0x4E ∷ o ∷ b)) h.0
                ∙ ground arith)
              (decode_action op b) (decode_action-Back b bytes op))
          (λ _. tt))
      (λ _. tt)

-- A payload of bytes that the decoder accepts as an action is the payload that the encoder writes
-- for that action: no action has a second form on the chain.
pub encode_action-recognise :
    (p : List ℕ) (a : SmAction) → All Byte p → recognise p ≡ some a → encode_action a ≡ some p
unfolding recognise
encode_action-recognise [] a bytes h = absurd (ground arith)
encode_action-recognise (x ∷ []) a bytes h = absurd (ground arith)
encode_action-recognise (x ∷ y ∷ []) a bytes h = absurd (ground arith)
encode_action-recognise (x ∷ y ∷ z ∷ []) a bytes h = absurd (ground arith)
encode_action-recognise (x ∷ y ∷ z ∷ op ∷ b) a bytes h =
    OnSome-result (λ c. encode_action c ≡ some (x ∷ y ∷ z ∷ op ∷ b)) _ a
      (framed x y z op b bytes.1.1.1.1) h
