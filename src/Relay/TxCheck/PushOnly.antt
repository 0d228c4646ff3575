-- ===== src/Relay/TxCheck/PushOnly.antt =====
-- Scripts that only push: src/txcheck.c.
use namespace_indexer.Common.{
  ℕ, zero, suc, ◌^◌, ◌≤◌, ◌<◌, ◌≡◌, refl, ap, sym, subst, ◌∙◌, ◌↔◌, true, false, not, List, [], ◌∷◌,
  ◌++◌, none, some, ltb, ◌==◌, arith, All, All-drop, All-take, OnSome, OnSome-guard, OnSome-result,
  if-elim, length, take, drop, le_read, le_write, length-append, take-append, drop-append,
  take-drop, length-take, length-le_write, le_read-le_write, le_write-le_read, Bool-cases,
  Option-cases, inl, inr,
}
use mathlib.Core.List.{append_assoc}
use native.Mathlib.Nat.{pow-suc}
use namespace_indexer.Engine.Codec.Layout.{Byte}
use namespace_indexer.Relay.TxCheck.{push_size, push_loop, script_push_only}

-- One push of a script, and its bytes.
pub data Push : Type 0 where
  direct data1 data2 data4 : (d : List ℕ) → Push
  number : (op : ℕ) → Push

unfoldable pub write_push : Push → List ℕ
write_push (Push.direct d) = length d ∷ d
write_push (Push.data1 d) = 0x4c ∷ (le_write 1 (length d) ++ d)
write_push (Push.data2 d) = 0x4d ∷ (le_write 2 (length d) ++ d)
write_push (Push.data4 d) = 0x4e ∷ (le_write 4 (length d) ++ d)
write_push (Push.number op) = op ∷ []

abbrev pub PushFits : Push → Type 0
PushFits (Push.direct d) = length d < 0x4c
PushFits (Push.data1 d) = length d < 2 ^ 8
PushFits (Push.data2 d) = length d < 2 ^ 16
PushFits (Push.data4 d) = length d < 2 ^ 32
PushFits (Push.number op) = (0x4f ≤ op) × (op ≤ 0x60)

unfoldable pub write_pushes : List Push → List ℕ
unfolding write_push
write_pushes [] = []
write_pushes (p ∷ ps) = write_push p ++ write_pushes ps

-- A push in front is stepped over.
loop_step :
    (fuel op len : ℕ) (s rest : List ℕ)
    → push_size op s ≡ some (len, rest)
    → len ≤ length rest
    → push_loop (suc fuel) (op ∷ s) ≡ push_loop fuel (drop len rest)
unfolding push_loop
loop_step fuel op len s rest h k =
    rw (h, push_loop) (rw (let e : ltb (length rest) len ≡ false = ground arith in e) refl)

-- Behind its length in n bytes, the data of a push.
sized_step :
    (fuel op n : ℕ) (d t : List ℕ)
    → length d < 256 ^ n
    → ((s : List ℕ) → n ≤ length s → push_size op s ≡ some (le_read (take n s), drop n s))
    → push_loop (suc fuel) (op ∷ ((le_write n (length d) ++ d) ++ t)) ≡ push_loop fuel t
sized_step fuel op n d t small reads =
    let w = le_write n (length d) in
    let size : length w ≡ n = length-le_write n (length d) in
    let long = length-append w (d ++ t) in
    let front : take n (w ++ (d ++ t)) ≡ w =
      subst (λ k. take k (w ++ (d ++ t)) ≡ w) size (take-append w (d ++ t)) in
    let back : drop n (w ++ (d ++ t)) ≡ d ++ t =
      subst (λ k. drop k (w ++ (d ++ t)) ≡ d ++ t) size (drop-append w (d ++ t)) in
    let value : le_read (take n (w ++ (d ++ t))) ≡ length d =
      ap le_read front ∙ le_read-le_write n (length d) small in
    let found : push_size op (w ++ (d ++ t)) ≡ some (length d, d ++ t) =
      reads (w ++ (d ++ t)) (omega arith) ∙ (rw (value, back) refl) in
    let room = length-append d t in
    ap (λ u. push_loop (suc fuel) (op ∷ u)) (append_assoc w d t)
    ∙ loop_step fuel op (length d) (w ++ (d ++ t)) (d ++ t) found (omega arith)
    ∙ ap (push_loop fuel) (drop-append d t)

push_step :
    (p : Push) (fuel : ℕ) (t : List ℕ)
    → PushFits p
    → push_loop (suc fuel) (write_push p ++ t) ≡ push_loop fuel t
unfolding write_push push_size
push_step (Push.direct d) fuel t f =
    let room = length-append d t in
    loop_step fuel (length d) (length d) (d ++ t) (d ++ t)
      (rw (let e : ltb 0x60 (length d) ≡ false = ground arith in e)
        (rw (let e : ltb (length d) 0x4c ≡ true = ground arith in e) refl))
      (omega arith)
    ∙ ap (push_loop fuel) (drop-append d t)
push_step (Push.data1 d) fuel t f =
    sized_step fuel 0x4c 1 d t (omega arith)
      λ s k. rw (let e : ltb (length s) 1 ≡ false = ground arith in e) refl
push_step (Push.data2 d) fuel t f =
    sized_step fuel 0x4d 2 d t (omega arith)
      λ s k. rw (let e : ltb (length s) 2 ≡ false = ground arith in e) refl
push_step (Push.data4 d) fuel t f =
    sized_step fuel 0x4e 4 d t (omega arith)
      λ s k. rw (let e : ltb (length s) 4 ≡ false = ground arith in e) refl
push_step (Push.number op) fuel t f =
    loop_step fuel op 0 t t (let (low, high) = f in ground arith) (omega arith)

-- The script of pushes passes, on fuel for its bytes.
length-write_push : (p : Push) → 1 ≤ length (write_push p)
unfolding write_push
length-write_push (Push.direct d) = omega arith
length-write_push (Push.data1 d) = omega arith
length-write_push (Push.data2 d) = omega arith
length-write_push (Push.data4 d) = omega arith
length-write_push (Push.number op) = omega arith

pushes_pass :
    (ps : List Push) (fuel : ℕ)
    → All PushFits ps
    → length (write_pushes ps) ≤ fuel
    → push_loop fuel (write_pushes ps) ≡ true
unfolding write_pushes
pushes_pass [] zero f k = unfold push_loop in refl
pushes_pass [] (suc fuel) f k = unfold push_loop in refl
pushes_pass (p ∷ ps) zero f k =
    let size = length-append (write_push p) (write_pushes ps) in
    let some_byte = length-write_push p in absurd (omega arith)
pushes_pass (p ∷ ps) (suc fuel) f k =
    let size = length-append (write_push p) (write_pushes ps) in
    let some_byte = length-write_push p in
    push_step p fuel (write_pushes ps) f.0 ∙ pushes_pass ps fuel f.1 (omega arith)

le_read_bound : (xs : List ℕ) → All Byte xs → le_read xs < 256 ^ length xs
unfolding le_read
le_read_bound [] b = omega arith
le_read_bound (x ∷ xs) b =
    let power = pow-suc 256 (length xs) in
    let rest = le_read_bound xs b.1 in let byte = b.0 in omega arith

-- A push and the script behind it.
FirstPush : List ℕ → List ℕ → Type 0
FirstPush s rest = (p : Push) × PushFits p × (s ≡ write_push p ++ rest)

sized_cut :
    (n : ℕ) (s : List ℕ)
    → All Byte s
    → n ≤ length s
    → le_read (take n s) ≤ length (drop n s)
    → let d = take (le_read (take n s)) (drop n s) in
      (length d < 256 ^ n)
      × (s ≡ (le_write n (length d) ++ d) ++ drop (le_read (take n s)) (drop n s))
sized_cut n s bytes k room =
    let len = le_read (take n s) in
    let d = take len (drop n s) in
    let size : length (take n s) ≡ n = length-take n s k in
    let measured : length d ≡ len = length-take len (drop n s) room in
    let small : len < 256 ^ n =
      subst (λ k. len < 256 ^ k) size (le_read_bound (take n s) (All-take Byte n s bytes)) in
    let whole : le_write n len ≡ take n s =
      subst (λ k. le_write k len ≡ take n s) size
        (le_write-le_read (take n s) (All-take Byte n s bytes)) in
    (
      omega arith,
      sym (
          ap (λ w. (w ++ d) ++ drop len (drop n s)) (ap (le_write n) measured ∙ whole)
          ∙ append_assoc (take n s) d (drop len (drop n s))
          ∙ ap (take n s ++◌) (take-drop len (drop n s))
          ∙ take-drop n s),
    )

sized_push :
    (op code n : ℕ) (s : List ℕ) (p : List ℕ → Push)
    → op ≡ code
    → All Byte s
    → n ≤ length s
    → le_read (take n s) ≤ length (drop n s)
    → ((d : List ℕ) → length d < 256 ^ n → PushFits (p d))
    → ((d : List ℕ) → write_push (p d) ≡ code ∷ (le_write n (length d) ++ d))
    → FirstPush (op ∷ s) (drop (le_read (take n s)) (drop n s)) × All Byte (drop n s)
unfolding FirstPush
sized_push op code n s p e bytes k room fits writes =
    let d = take (le_read (take n s)) (drop n s) in
    let rest = drop (le_read (take n s)) (drop n s) in
    let (small, split) = sized_cut n s bytes k room in
    (
      (
        p d,
        fits d small,
        ap (λ x. x ∷ s) e ∙ ap (λ u. code ∷ u) split ∙ ap (λ w. w ++ rest) (sym (writes d)),
      ),
      All-drop Byte n s bytes,
    )

first_of_script :
    (op : ℕ) (s : List ℕ)
    → All Byte s
    → OnSome
        (λ r. r.0 ≤ length r.1 → FirstPush (op ∷ s) (drop r.0 r.1) × All Byte r.1)
        (push_size op s)
unfolding push_size FirstPush write_push
first_of_script op s bytes =
    let P : ℕ × List ℕ → Type 0 =
      λ r. r.0 ≤ length r.1 → FirstPush (op ∷ s) (drop r.0 r.1) × All Byte r.1 in
    if-elim (OnSome P) (ltb 0x60 op) _ _ (λ _. tt)
      λ low.
        if-elim (OnSome P) (ltb op 0x4c) _ _
          (λ direct room.
            let size = length-take op s room in
            (
              (
                Push.direct (take op s),
                ground arith,
                ap (λ k. k ∷ s) (sym size)
                    ∙ ap (λ u. length (take op s) ∷ u) (sym (take-drop op s)),
              ),
              bytes,
            ))
          λ n0.
            if-elim (OnSome P) (op == 0x4c) _ _
              (λ e.
                OnSome-guard P (not (ltb (length s) 1)) (some (le_read (take 1 s), drop 1 s))
                  λ k room.
                    sized_push op 0x4c 1 s Push.data1 (ground arith) bytes (ground arith) room
                      (λ d h. h) (λ d. refl))
              λ n1.
                if-elim (OnSome P) (op == 0x4d) _ _
                  (λ e.
                    OnSome-guard P (not (ltb (length s) 2)) (some (le_read (take 2 s), drop 2 s))
                      λ k room.
                        sized_push op 0x4d 2 s Push.data2 (ground arith) bytes (ground arith) room
                          (λ d h. h) (λ d. refl))
                  λ n2.
                    if-elim (OnSome P) (op == 0x4e) _ _
                      (λ e.
                        OnSome-guard P (not (ltb (length s) 4))
                          (some (le_read (take 4 s), drop 4 s))
                          λ k room.
                            sized_push op 0x4e 4 s Push.data4 (ground arith) bytes (ground arith)
                              room (λ d h. h) (λ d. refl))
                      λ n4. λ room. ((Push.number op, (ground arith, ground arith), refl), bytes)

loop_stuck :
    (fuel op : ℕ) (s : List ℕ) → push_size op s ≡ none → push_loop (suc fuel) (op ∷ s) ≡ false
unfolding push_loop
loop_stuck fuel op s h = rw (h, push_loop) refl

loop_short :
    (fuel op len : ℕ) (s rest : List ℕ)
    → push_size op s ≡ some (len, rest)
    → ltb (length rest) len ≡ true
    → push_loop (suc fuel) (op ∷ s) ≡ false
unfolding push_loop
loop_short fuel op len s rest h short = rw (h, push_loop) (rw short refl)

pushes_of :
    (fuel : ℕ) (s : List ℕ)
    → All Byte s
    → push_loop fuel s ≡ true
    → (ps : List Push) × All PushFits ps × (s ≡ write_pushes ps)
unfolding write_pushes FirstPush
pushes_of fuel [] bytes h = ([], tt, refl)
pushes_of zero (op ∷ s) bytes h = absurd (unfold push_loop in ground arith)
pushes_of (suc fuel) (op ∷ s) bytes h = elim (Option-cases (push_size op s)) [
  | inl stuck ↦ let e = loop_stuck fuel op s stuck in absurd (ground arith)
  | inr ((len, rest), e) ↦ elim (Bool-cases (ltb (length rest) len)) [
    | inl short ↦ let e' = loop_short fuel op len s rest e short in absurd (ground arith)
    | inr fits ↦
        let room : len ≤ length rest = ground arith in
        let ((p, small, split), after) =
          OnSome-result _ (push_size op s) (len, rest) (first_of_script op s bytes.1) e room in
        let goes = sym (loop_step fuel op len s rest e room) ∙ h in
        let (ps, all, whole) = pushes_of fuel (drop len rest) (All-drop Byte len rest after) goes in
        (p ∷ ps, (small, all), split ∙ ap (write_push p ++◌) whole)
  ]
]

-- A script of bytes passes exactly when it is a sequence of pushes, each with its data whole.
pub script_push_only_iff :
    (s : List ℕ)
    → All Byte s
    → (script_push_only s ≡ true) ↔ ((ps : List Push) × All PushFits ps × (s ≡ write_pushes ps))
unfolding script_push_only
script_push_only_iff s bytes = (
  pushes_of (length s) s bytes,
  λ (ps, fits, e).
      subst (λ u. push_loop (length u) u ≡ true) (sym e)
        (pushes_pass ps (length (write_pushes ps)) fits (omega arith)),
)
