-- ===== src/Term/Decode/Progress.antt =====
-- What a decoded key takes of the bytes.
use aish.Prelude.{
  ℕ, suc, ◌+◌, ◌≤◌, ◌<◌, ◌≡◌, Bool, true, false, Option, none, some, List, [], ◌∷◌, ◌==◌, ◌*◌, ◌-◌,
  ◌&&◌, ltb, if◌then◌else◌, length, arith,
}
use aish.Term.Editor.Keys.{Key, esc, unknown}
use aish.Term.Decode.{
  Decoded, control, arrow, is_param, tilde_key, scan_tilde, decode_csi, decode_ss3, decode_escape,
  within, second_low, second_high, two_bytes, three_bytes, four_bytes, decode_rune, of_rune,
  decode_key,
}

-- Of `n` bytes.
abbrev pub Takes : ℕ → Decoded → Type 0
Takes n none = Unit {0}
Takes n (some (k, m)) = (0 < m) × (m ≤ n)

if-Takes : (n : ℕ) (b : Bool) (x y : Decoded) → Takes n x → Takes n y → Takes n (if b then x else y)
if-Takes n true x y h k = h
if-Takes n false x y h k = k

scan_tilde-Takes :
    (k : Key) (i n : ℕ) (cs : List ℕ) → n ≡ i + length cs → Takes n (scan_tilde k i cs)
unfolding scan_tilde
scan_tilde-Takes k i n [] e = tt
scan_tilde-Takes k i n (c ∷ cs) e =
    if-Takes n (c == b'~') (some (k, i + 1))
      (if is_param c then scan_tilde k (i + 1) cs else some (unknown, i + 1))
      (omega arith, omega arith)
      (if-Takes n (is_param c) (scan_tilde k (i + 1) cs) (some (unknown, i + 1))
        (scan_tilde-Takes k (i + 1) n cs (omega arith)) (omega arith, omega arith))

final-Takes :
    (n : ℕ) (o : Option Key) (y : Decoded)
    → 3 ≤ n
    → Takes n y
    → Takes n (elim o [ some k ↦ some (k, 3) | none ↦ y ])
final-Takes n none y le h = h
final-Takes n (some k) y le h = (omega arith, le)

decode_csi-Takes : (cs : List ℕ) → Takes (suc (suc (length cs))) (decode_csi cs)
unfolding decode_csi
decode_csi-Takes [] = tt
decode_csi-Takes (c ∷ cs) =
    final-Takes (suc (suc (suc (length cs)))) (arrow c)
      (if is_param c then scan_tilde (tilde_key c) 3 cs else some (unknown, 3)) (omega arith)
      (if-Takes (suc (suc (suc (length cs)))) (is_param c) (scan_tilde (tilde_key c) 3 cs)
        (some (unknown, 3))
        (scan_tilde-Takes (tilde_key c) 3 (suc (suc (suc (length cs)))) cs (omega arith))
        (omega arith, omega arith))

decode_ss3-Takes : (cs : List ℕ) → Takes (suc (suc (length cs))) (decode_ss3 cs)
unfolding decode_ss3
decode_ss3-Takes [] = tt
decode_ss3-Takes (c ∷ cs) =
    final-Takes (suc (suc (suc (length cs)))) (arrow c) (some (unknown, 3)) (omega arith)
      (omega arith, omega arith)

decode_escape-Takes : (cs : List ℕ) → Takes (suc (length cs)) (decode_escape cs)
unfolding decode_escape
decode_escape-Takes [] = tt
decode_escape-Takes (c ∷ cs) =
    if-Takes (suc (suc (length cs))) (c == b'[') (decode_csi cs)
      (if c == b'O' then decode_ss3 cs else some (esc, 1)) (decode_csi-Takes cs)
      (if-Takes (suc (suc (length cs))) (c == b'O') (decode_ss3 cs) (some (esc, 1))
        (decode_ss3-Takes cs) (omega arith, omega arith))

-- Of `n` bytes; an invalid byte takes itself.
abbrev Sized : ℕ → Option (ℕ × ℕ) → Type 0
Sized n none = Unit {0}
Sized n (some (r, m)) = (0 < m) × (m ≤ n)

if-Sized :
    (n : ℕ) (b : Bool) (x y : Option (ℕ × ℕ)) → Sized n x → Sized n y → Sized n (if b then x else y)
if-Sized n true x y h k = h
if-Sized n false x y h k = k

two_bytes-Sized : (b0 : ℕ) (bs : List ℕ) → Sized (suc (length bs)) (two_bytes b0 bs)
unfolding two_bytes
two_bytes-Sized b0 [] = tt
two_bytes-Sized b0 (b1 ∷ bs) =
    if-Sized (suc (suc (length bs))) (within 128 191 b1) (some ((b0 - 192) * 64 + (b1 - 128), 2))
      none (omega arith, omega arith) tt

three_bytes-Sized : (b0 : ℕ) (bs : List ℕ) → Sized (suc (length bs)) (three_bytes b0 bs)
unfolding three_bytes
three_bytes-Sized b0 [] = tt
three_bytes-Sized b0 (b1 ∷ []) = tt
three_bytes-Sized b0 (b1 ∷ b2 ∷ bs) =
    if-Sized (suc (suc (suc (length bs))))
      (within (second_low b0) (second_high b0) b1 && within 128 191 b2)
      (some ((b0 - 224) * 4096 + (b1 - 128) * 64 + (b2 - 128), 3)) none (omega arith, omega arith)
      tt

four_bytes-Sized : (b0 : ℕ) (bs : List ℕ) → Sized (suc (length bs)) (four_bytes b0 bs)
unfolding four_bytes
four_bytes-Sized b0 [] = tt
four_bytes-Sized b0 (b1 ∷ []) = tt
four_bytes-Sized b0 (b1 ∷ b2 ∷ []) = tt
four_bytes-Sized b0 (b1 ∷ b2 ∷ b3 ∷ bs) =
    if-Sized (suc (suc (suc (suc (length bs)))))
      (within (second_low b0) (second_high b0) b1 && (within 128 191 b2 && within 128 191 b3))
      (some ((b0 - 240) * 262144 + (b1 - 128) * 4096 + (b2 - 128) * 64 + (b3 - 128), 4)) none
      (omega arith, omega arith) tt

decode_rune-Sized : (b0 : ℕ) (bs : List ℕ) → Sized (suc (length bs)) (decode_rune b0 bs)
unfolding decode_rune
decode_rune-Sized b0 bs =
    let n : ℕ = suc (length bs) in
    let four = if within 240 244 b0 then four_bytes b0 bs else none in
    let three = if within 224 239 b0 then three_bytes b0 bs else four in
    let two = if within 194 223 b0 then two_bytes b0 bs else three in
    if-Sized n (ltb b0 128) (some (b0, 1)) two (omega arith, omega arith)
      (if-Sized n (within 194 223 b0) (two_bytes b0 bs) three (two_bytes-Sized b0 bs) (
        if-Sized n (within 224 239 b0) (three_bytes b0 bs) four (three_bytes-Sized b0 bs)
          (if-Sized n (within 240 244 b0) (four_bytes b0 bs) none (four_bytes-Sized b0 bs) tt)))

of_rune-Takes : (n : ℕ) (o : Option (ℕ × ℕ)) → Sized (suc n) o → Takes (suc n) (some (of_rune o))
unfolding of_rune
of_rune-Takes n none h = (omega arith, omega arith)
of_rune-Takes n (some (r, m)) h = h

-- A key that DecodeKey returns takes at least one byte and no more than there are.
pub decode_key-Takes : (buf : List ℕ) → Takes (length buf) (decode_key buf)
unfolding decode_key
decode_key-Takes [] = tt
decode_key-Takes (b ∷ bs) = by_control (control b)
  where
    by_control :
        (o : Option Key)
        → Takes (suc (length bs)) (elim o [
          | some k ↦ some (k, 1)
          | none ↦ if b == 27 then decode_escape bs else some (of_rune (decode_rune b bs))
        ])
    by_control (some k) = (omega arith, omega arith)
    by_control none =
        if-Takes (suc (length bs)) (b == 27) (decode_escape bs) (some (of_rune (decode_rune b bs)))
          (decode_escape-Takes bs)
          (of_rune-Takes (length bs) (decode_rune b bs) (decode_rune-Sized b bs))
