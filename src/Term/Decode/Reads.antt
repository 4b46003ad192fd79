-- ===== src/Term/Decode/Reads.antt =====
-- How the bytes are split over reads: it does not matter for escape sequences and ASCII, and it
-- does for longer runes.
use aish.Prelude.{
  ℕ, zero, suc, ◌+◌, ◌-◌, ◌*◌, ◌≤◌, ◌<◌, ◌≡◌, refl, ap, ◌∙◌, sym, Bool, true, false, Option, none,
  some, List, [], ◌∷◌, ◌++◌, ◌==◌, if◌then◌else◌, length, drop, arith, Option-cases, inl, inr,
  append-nil, append_assoc, subst,
}
use aish.Term.Editor.Keys.{Key, rune, esc, unknown}
use aish.Term.Decode.{
  Decoded, control, arrow, is_param, tilde_key, scan_tilde, decode_csi, decode_ss3, decode_escape,
  decode_rune, of_rune, decode_key, next_key, two_bytes,
}
use aish.Term.Decode.Progress.{Takes, decode_key-Takes}

-- A key that is decoded is decoded again when more bytes follow.
abbrev Stable : Decoded → Decoded → Type 0
Stable none o = Unit {0}
Stable (some x) o = o ≡ some x

if-Stable :
    (b : Bool) (x x' y y' : Decoded)
    → Stable x x'
    → Stable y y'
    → Stable (if b then x else y) (if b then x' else y')
if-Stable true x x' y y' h k = h
if-Stable false x x' y y' h k = k

final-Stable :
    (o : Option Key) (y y' : Decoded)
    → Stable y y'
    → Stable
        (elim o [ some k ↦ some (k, 3) | none ↦ y ])
        (elim o [ some k ↦ some (k, 3) | none ↦ y' ])
final-Stable none y y' h = h
final-Stable (some k) y y' h = refl

scan_tilde-Stable :
    (k : Key) (i : ℕ) (cs more : List ℕ) → Stable (scan_tilde k i cs) (scan_tilde k i (cs ++ more))
unfolding scan_tilde
scan_tilde-Stable k i [] more = tt
scan_tilde-Stable k i (c ∷ cs) more =
    let now : Decoded = scan_tilde k (i + 1) cs in
    let later : Decoded = scan_tilde k (i + 1) (cs ++ more) in
    let stop : Decoded = some (unknown, i + 1) in
    if-Stable (c == b'~') (some (k, i + 1)) (some (k, i + 1)) (if is_param c then now else stop)
      (if is_param c then later else stop) refl
      (if-Stable (is_param c) now later stop stop (scan_tilde-Stable k (i + 1) cs more) refl)

decode_csi-Stable : (cs more : List ℕ) → Stable (decode_csi cs) (decode_csi (cs ++ more))
unfolding decode_csi
decode_csi-Stable [] more = tt
decode_csi-Stable (c ∷ cs) more =
    let stop : Decoded = some (unknown, 3) in
    let now : Decoded = scan_tilde (tilde_key c) 3 cs in
    let later : Decoded = scan_tilde (tilde_key c) 3 (cs ++ more) in
    final-Stable (arrow c) (if is_param c then now else stop) (if is_param c then later else stop)
      (if-Stable (is_param c) now later stop stop (scan_tilde-Stable (tilde_key c) 3 cs more) refl)

decode_ss3-Stable : (cs more : List ℕ) → Stable (decode_ss3 cs) (decode_ss3 (cs ++ more))
unfolding decode_ss3
decode_ss3-Stable [] more = tt
decode_ss3-Stable (c ∷ cs) more =
    final-Stable (arrow c) (some (unknown, 3)) (some (unknown, 3)) refl

decode_escape-Stable : (cs more : List ℕ) → Stable (decode_escape cs) (decode_escape (cs ++ more))
unfolding decode_escape
decode_escape-Stable [] more = tt
decode_escape-Stable (c ∷ cs) more =
    if-Stable (c == b'[') (decode_csi cs) (decode_csi (cs ++ more))
      (if c == b'O' then decode_ss3 cs else some (esc, 1))
      (if c == b'O' then decode_ss3 (cs ++ more) else some (esc, 1)) (decode_csi-Stable cs more)
      (if-Stable (c == b'O') (decode_ss3 cs) (decode_ss3 (cs ++ more)) (some (esc, 1))
        (some (esc, 1)) (decode_ss3-Stable cs more) refl)

ascii : (b : ℕ) (bs : List ℕ) → b < 128 → decode_rune b bs ≡ some (b, 1)
unfolding decode_rune
ascii b bs h = ground arith

decode_key-Stable :
    (b : ℕ) (bs more : List ℕ)
    → b < 128
    → Stable (decode_key (b ∷ bs)) (decode_key (b ∷ (bs ++ more)))
unfolding decode_key of_rune
decode_key-Stable b bs more h = by_control (control b)
  where
    by_control :
        (o : Option Key)
        → Stable
            (elim o [
              | some k ↦ some (k, 1)
              | none ↦ if b == 27 then decode_escape bs else some (of_rune (decode_rune b bs))
            ])
            (elim o [
              | some k ↦ some (k, 1)
              | none ↦
                  if b == 27
                  then decode_escape (bs ++ more)
                  else some (of_rune (decode_rune b (bs ++ more)))
            ])
    by_control (some k) = refl
    by_control none =
        if-Stable (b == 27) (decode_escape bs) (decode_escape (bs ++ more))
          (some (of_rune (decode_rune b bs))) (some (of_rune (decode_rune b (bs ++ more))))
          (decode_escape-Stable bs more)
          (ap (λ o. some (of_rune o)) (ascii b (bs ++ more) h ∙ sym (ascii b bs h)))

unfoldable pub joined : List (List ℕ) → List ℕ
joined [] = []
joined (bytes ∷ reads) = bytes ++ joined reads

drop_within : (n : ℕ) (xs ys : List ℕ) → n ≤ length xs → drop n xs ++ ys ≡ drop n (xs ++ ys)
drop_within zero xs ys h = refl
drop_within (suc n) [] ys h = absurd (omega arith)
drop_within (suc n) (x ∷ xs) ys h = drop_within n xs ys (omega arith)

-- What nextKey returns is what DecodeKey makes of all the bytes at once.
abbrev pub Agrees : List ℕ → Option (Key × List ℕ × List (List ℕ)) → Type 0
Agrees bytes none = decode_key bytes ≡ none
Agrees bytes (some (k, buf, reads)) =
    (n : ℕ) × (decode_key bytes ≡ some (k, n)) × (buf ++ joined reads ≡ drop n bytes)

found :
    (b : ℕ) (bs : List ℕ) (reads : List (List ℕ)) (k : Key) (n : ℕ)
    → b < 128
    → decode_key (b ∷ bs) ≡ some (k, n)
    → Agrees (b ∷ (bs ++ joined reads)) (some (k, drop n (b ∷ bs), reads))
found b bs reads k n h e =
    let takes : Takes (length (b ∷ bs)) (some (k, n)) =
      subst (Takes (length (b ∷ bs))) e (decode_key-Takes (b ∷ bs)) in
    (
      n,
      subst (λ o. Stable o (decode_key (b ∷ (bs ++ joined reads)))) e
          (decode_key-Stable b bs (joined reads) h),
      drop_within n (b ∷ bs) (joined reads) takes.1,
    )

-- For bytes that begin with ESC or another ASCII byte, nextKey returns the key that DecodeKey
-- makes of all the bytes that are still to come, however they are split over reads, and what is
-- left is what follows that key; it returns the end of input exactly if those bytes hold no
-- complete key.
pub next_key_lem :
    (reads : List (List ℕ)) (b : ℕ) (bs : List ℕ)
    → b < 128
    → Agrees (b ∷ (bs ++ joined reads)) (next_key (b ∷ bs) reads)
unfolding next_key joined
next_key_lem [] b bs h = elim (Option-cases (decode_key (b ∷ bs))) [
  | inl e ↦ rw (e, next_key) (ap (λ l. decode_key (b ∷ l)) (append-nil bs) ∙ e)
  | inr ((k, n), e) ↦ rw (e, next_key) (found b bs [] k n h e)
]
next_key_lem (bytes ∷ reads) b bs h = elim (Option-cases (decode_key (b ∷ bs))) [
  | inl e ↦
      rw (e, next_key)
        (subst (λ l. Agrees (b ∷ l) (next_key (b ∷ (bs ++ bytes)) reads))
          (append_assoc bs bytes (joined reads)) (next_key_lem reads b (bs ++ bytes) h))
  | inr ((k, n), e) ↦ rw (e, next_key) (found b bs (bytes ∷ reads) k n h e)
]

-- A rune of two bytes is read as that rune if one read returns both, and as an unknown key if the
-- first byte comes alone: nextKey then does not wait for the second.
pub split_rune :
    (b0 b1 : ℕ)
    → 194 ≤ b0
    → b0 ≤ 223
    → 128 ≤ b1
    → b1 ≤ 191
    → (next_key [] ((b0 ∷ b1 ∷ []) ∷ []) ≡ some (rune ((b0 - 192) * 64 + (b1 - 128)), [], []))
      × (next_key [] ((b0 ∷ []) ∷ (b1 ∷ []) ∷ []) ≡ some (unknown, [], (b1 ∷ []) ∷ []))
unfolding next_key decode_key control decode_rune two_bytes of_rune
split_rune b0 b1 l0 h0 l1 h1 = (ground arith, ground arith)
