-- ===== src/Term/Decode.antt =====
-- shell/internal/term/keys.go: DecodeKey, and nextKey of shell/internal/term/editor.go. A byte is a
-- number below 256. What is decoded is the key and how many bytes it takes; `none` asks for more.
pub mod Progress
pub mod Reads
use aish.Prelude.{
  ℕ, zero, suc, ◌+◌, ◌-◌, ◌*◌, Bool, true, false, Option, none, some, List, [], ◌∷◌, ◌++◌, ◌==◌,
  ◌&&◌, ◌||◌, leb, ltb, if◌then◌else◌, drop,
}
use aish.Term.Editor.Keys.{
  Key, rune, ctrl_a, ctrl_b, ctrl_c, ctrl_d, ctrl_e, ctrl_f, ctrl_r, ctrl_u, ctrl_w, tab, enter,
  backspace, delete, home, end, up, down, left, right, esc, unknown,
}

abbrev pub Decoded : Type 0
Decoded = Option (Key × ℕ)

-- The control bytes of DecodeKey's switch, without ESC.
unfoldable pub control : ℕ → Option Key
control b =
    if b == 1
    then some ctrl_a
    else if b == 2
    then some ctrl_b
    else if b == 3
    then some ctrl_c
    else if b == 4
    then some ctrl_d
    else if b == 5
    then some ctrl_e
    else if b == 6
    then some ctrl_f
    else if b == 8
    then some backspace
    else if b == 9
    then some tab
    else if b == 10 || b == 13
    then some enter
    else if b == 18
    then some ctrl_r
    else if b == 21
    then some ctrl_u
    else if b == 23
    then some ctrl_w
    else if b == 127
    then some backspace
    else none

-- The final bytes that decodeCSI and decodeSS3 share.
unfoldable pub arrow : ℕ → Option Key
arrow c =
    if c == b'A'
    then some up
    else if c == b'B'
    then some down
    else if c == b'C'
    then some right
    else if c == b'D'
    then some left
    else if c == b'H'
    then some home
    else if c == b'F'
    then some end
    else none

abbrev pub is_param : ℕ → Bool
is_param c = leb b'0' c && leb c b'9'

-- The key of `ESC [ d … ~`.
unfoldable pub tilde_key : ℕ → Key
tilde_key d =
    if d == b'1' || d == b'7'
    then home
    else if d == b'4' || d == b'8'
    then end
    else if d == b'3'
    then delete
    else unknown

-- The scan for the tilde, from index `i` on.
unfoldable pub scan_tilde : Key → ℕ → List ℕ → Decoded
scan_tilde k i [] = none
scan_tilde k i (c ∷ cs) =
    let rest = scan_tilde k (i + 1) cs in
    if c == b'~' then some (k, i + 1) else if is_param c then rest else some (unknown, i + 1)

-- After `ESC [`.
unfoldable pub decode_csi : List ℕ → Decoded
unfolding arrow tilde_key scan_tilde
decode_csi [] = none
decode_csi (c ∷ cs) = elim (arrow c) [
  | some k ↦ some (k, 3)
  | none ↦ if is_param c then scan_tilde (tilde_key c) 3 cs else some (unknown, 3)
]

-- After `ESC O`.
unfoldable pub decode_ss3 : List ℕ → Decoded
unfolding arrow
decode_ss3 [] = none
decode_ss3 (c ∷ cs) = elim (arrow c) [ some k ↦ some (k, 3) | none ↦ some (unknown, 3) ]

-- After ESC.
unfoldable pub decode_escape : List ℕ → Decoded
unfolding decode_csi decode_ss3
decode_escape [] = none
decode_escape (c ∷ cs) =
    if c == b'[' then decode_csi cs else if c == b'O' then decode_ss3 cs else some (esc, 1)

abbrev pub within : ℕ → ℕ → ℕ → Bool
within low high b = leb low b && leb b high

-- The bounds of the second byte, by the first.
abbrev pub second_low : ℕ → ℕ
second_low b0 = if b0 == 224 then 160 else if b0 == 240 then 144 else 128

abbrev pub second_high : ℕ → ℕ
second_high b0 = if b0 == 237 then 159 else if b0 == 244 then 143 else 191

unfoldable pub two_bytes : ℕ → List ℕ → Option (ℕ × ℕ)
two_bytes b0 [] = none
two_bytes b0 (b1 ∷ bs) = if within 128 191 b1 then some ((b0 - 192) * 64 + (b1 - 128), 2) else none

unfoldable pub three_bytes : ℕ → List ℕ → Option (ℕ × ℕ)
three_bytes b0 [] = none
three_bytes b0 (b1 ∷ []) = none
three_bytes b0 (b1 ∷ b2 ∷ bs) =
    if within (second_low b0) (second_high b0) b1 && within 128 191 b2
    then some ((b0 - 224) * 4096 + (b1 - 128) * 64 + (b2 - 128), 3)
    else none

unfoldable pub four_bytes : ℕ → List ℕ → Option (ℕ × ℕ)
four_bytes b0 [] = none
four_bytes b0 (b1 ∷ []) = none
four_bytes b0 (b1 ∷ b2 ∷ []) = none
four_bytes b0 (b1 ∷ b2 ∷ b3 ∷ bs) =
    if within (second_low b0) (second_high b0) b1 && (within 128 191 b2 && within 128 191 b3)
    then some ((b0 - 240) * 262144 + (b1 - 128) * 4096 + (b2 - 128) * 64 + (b3 - 128), 4)
    else none

-- utf8.DecodeRune on bytes that are not empty: the rune and its size, or `none` for
-- (RuneError, 1).
unfoldable pub decode_rune : ℕ → List ℕ → Option (ℕ × ℕ)
unfolding two_bytes three_bytes four_bytes
decode_rune b0 bs =
    if ltb b0 128
    then some (b0, 1)
    else if within 194 223 b0
    then two_bytes b0 bs
    else if within 224 239 b0
    then three_bytes b0 bs
    else if within 240 244 b0
    then four_bytes b0 bs
    else none

unfoldable pub of_rune : Option (ℕ × ℕ) → Key × ℕ
of_rune none = (unknown, 1)
of_rune (some (r, size)) = (rune r, size)

-- DecodeKey
unfoldable pub decode_key : List ℕ → Decoded
unfolding control decode_escape decode_rune of_rune
decode_key [] = none
decode_key (b ∷ bs) = elim (control b) [
  | some k ↦ some (k, 1)
  | none ↦ if b == 27 then decode_escape bs else some (of_rune (decode_rune b bs))
]

-- nextKey: the key, what is left of the buffer, and the reads that are left. Each read returns
-- bytes; after the last one `Read` returns no byte and io.EOF, and nextKey that error: `none`.
unfoldable pub next_key : List ℕ → List (List ℕ) → Option (Key × List ℕ × List (List ℕ))
unfolding decode_key
next_key buf [] = elim (decode_key buf) [ none ↦ none | some (k, n) ↦ some (k, drop n buf, []) ]
next_key buf (bytes ∷ reads) = elim (decode_key buf) [
  | none ↦ next_key (buf ++ bytes) reads
  | some (k, n) ↦ some (k, drop n buf, bytes ∷ reads)
]
