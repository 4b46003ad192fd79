-- ===== src/Shell/Repl/Stream.antt =====
-- Which lines runStream of shell/internal/shell/shell.go gives to dispatch, and that it ends.
use aish.Prelude.{
  ℕ, zero, suc, ◌<◌, ◌≤◌, ◌≡◌, refl, ap, ◌∙◌, ◌⊎◌, inl, inr, true, false, Option, none, some, List,
  [], ◌∷◌, ◌++◌, ◌==◌, if◌then◌else◌, arith, ==_iff, length, Text, reverse-append, trim_right_while,
  drop_while, split_rune_at, cons_first, List-cases, Bool-cases, Option-cases,
}
use aish.Shell.Repl.{Line, read_line, trimmed, End, eof, Loop, handle, run_stream}

-- A line that ends the input, or one with a newline and what follows it.
abbrev pub LastLine : Text → Type 0
LastLine input =
    (read_line input ≡ record { text = input; left = []; ended = true })
    × (split_rune_at b'\n' input ≡ input ∷ [])

abbrev pub FirstLine : Text → Type 0
FirstLine input =
    (l : Text) × (rest : Text) × (read_line input
      ≡ record { text = l ++ b'\n' ∷ []; left = rest; ended = false })
    × (split_rune_at b'\n' input ≡ l ∷ split_rune_at b'\n' rest)
    × (length rest < length input)

read_line-split : (input : Text) → LastLine input ⊎ FirstLine input
unfolding read_line split_rune_at cons_first
read_line-split [] = inl (refl, refl)
read_line-split (c ∷ input) = elim (Bool-cases (c == b'\n')) [
  | inl e ↦ rw ((==_iff c b'\n').0 e) (inr ([], input, refl, refl, omega arith))
  | inr e ↦ elim (read_line-split input) [
    | inl (r, s) ↦ inl (rw (e, read_line, r), rw (e, split_rune_at, s))
    | inr (l, rest, r, s, le) ↦
        inr (c ∷ l, rest, rw (e, read_line, r), rw (e, split_rune_at, s), omega (arith, le))
  ]
]

trimmed-newline : (l : Text) → trimmed (l ++ b'\n' ∷ []) ≡ trimmed l
unfolding trim_right_while drop_while
trimmed-newline l = rw (reverse-append l (b'\n' ∷ []))

module _ {S : Type 0} (loop : Loop S) where
  -- dispatch leaves at most the input that it was given.
  abbrev pub Consumes : Type 0
  Consumes = (t left : Text) (s : S) → length (loop.dispatch t left s).0.1 ≤ length left

  handle-left :
      (line : Line) (s : S) → Consumes → length (handle loop line s).0.1 ≤ length line.left
  unfolding handle
  handle-left line s h = elim (List-cases (trimmed line.text)) [
    | inl e ↦ rw (e, handle) (omega arith)
    | inr (c, t, e) ↦ elim (Option-cases (loop.dispatch (c ∷ t) line.left s).0.0) [
      | inl o ↦ rw (e, handle, o) (h (c ∷ t) line.left s)
      | inr (n, o) ↦ rw (e, handle, o) (h (c ∷ t) line.left s)
    ]
  ]

  handle-ended :
      (line : Line) (s : S) → line.ended ≡ true → (e : End) × ((handle loop line s).0.0 ≡ some e)
  unfolding handle
  handle-ended line s h = elim (List-cases (trimmed line.text)) [
    | inl e ↦ rw (e, handle, h) (_, refl)
    | inr (c, t, e) ↦ elim (Option-cases (loop.dispatch (c ∷ t) line.left s).0.0) [
      | inl o ↦ rw (e, handle, o, h) (_, refl)
      | inr (n, o) ↦ rw (e, handle, o) (_, refl)
    ]
  ]

  -- The loop ends after at most one line more than the input has runes, however it ends, if dispatch
  -- gives back at most the input that it was given.
  pub run_stream-some :
      (n : ℕ) (input : Text) (s : S)
      → Consumes
      → length input < n
      → (r : End × S) × (run_stream loop n input s ≡ some r)
  unfolding run_stream
  run_stream-some zero input s h le = absurd (omega arith)
  run_stream-some (suc n) input s h le = elim (Bool-cases (loop.prompt (loop.drain s)).0) [
    | inr e ↦ rw (e, run_stream) (_, refl)
    | inl e ↦
        elim (Option-cases (handle loop (read_line input) (loop.prompt (loop.drain s)).1).0.0) [
          | inr (x, o) ↦ rw (e, run_stream, o) (_, refl)
          | inl o ↦ elim (read_line-split input) [
            | inl (r, _) ↦ absurd (
                cc (
                  (handle-ended (read_line input) (loop.prompt (loop.drain s)).1
                      (ap (λ (l : Line). l.ended) r)).1,
                  o,
                ))
            | inr (l, rest, r, _, less) ↦
                rw (e, run_stream, o)
                  (run_stream-some n
                    (handle loop (read_line input) (loop.prompt (loop.drain s)).1).0.1
                    (handle loop (read_line input) (loop.prompt (loop.drain s)).1).1 h
                    (omega (
                      arith,
                      less,
                      le,
                      handle-left (read_line input) (loop.prompt (loop.drain s)).1 h,
                      ap (λ (k : Line). length k.left) r,
                    )))
          ]
        ]
  ]

-- A loop whose commands leave the input alone and whose prompt can be written.
module _ {S : Type 0} (drain show : S → S) (act : Text → S → S) where
  abbrev pub quiet : Loop S
  quiet = record {
    drain = drain;
    prompt = λ s. (true, show s);
    dispatch = λ t left s. ((none, left), act t s);
  }

  act_on : Text → S → S
  act_on [] s = s
  act_on (c ∷ t) s = act (c ∷ t) s

  -- The lines in their order: each is preceded by the notices and the prompt, and only those that
  -- are not blank but for carriage returns are acted on.
  pub feed : List Text → S → S
  unfolding act_on
  feed [] s = s
  feed (l ∷ ls) s = feed ls (act_on (trimmed l) (show (drain s)))

  handle-quiet :
      (line : Line) (s : S)
      → handle quiet line s
        ≡ ((if line.ended then some eof else none, line.left), act_on (trimmed line.text) s)
  unfolding handle act_on
  handle-quiet line s = elim (List-cases (trimmed line.text)) [
    | inl e ↦ rw (e, handle)
    | inr (c, t, e) ↦ rw (e, handle)
  ]

  after :
      (input : Text) (line : Line) (s : S)
      → read_line input ≡ line
      → handle quiet (read_line input) s
        ≡ ((if line.ended then some eof else none, line.left), act_on (trimmed line.text) s)
  after input line s r = ap (λ k. handle quiet k s) r ∙ handle-quiet line s

  -- Where no command reads from the input or ends the shell, and the prompt can be written, the loop
  -- reads to the end of the input, and the state is the one that its lines lead to, in their order:
  -- what stands between newlines, and what follows the last one.
  pub run_stream-feed :
      (n : ℕ) (input : Text) (s : S)
      → length input < n
      → run_stream quiet n input s ≡ some (eof, feed (split_rune_at b'\n' input) s)
  unfolding run_stream feed
  run_stream-feed zero input s le = absurd (omega arith)
  run_stream-feed (suc n) input s le = elim (read_line-split input) [
    | inl (r, sp) ↦
        let h = after input _ (show (drain s)) r in
        rw (h, run_stream, sp) (ap (λ (p : (Option End × Text) × S). some (eof, p.1)) h)
    | inr (l, rest, r, sp, less) ↦
        let h = after input _ (show (drain s)) r in
        rw (h, run_stream, sp)
          (ap (λ (p : (Option End × Text) × S). run_stream quiet n p.0.1 p.1) h
            ∙ run_stream-feed n rest (act_on (trimmed (l ++ b'\n' ∷ [])) (show (drain s)))
                (omega (arith, le, less))
            ∙ ap (λ t. some (eof, feed (split_rune_at b'\n' rest) (act_on t (show (drain s)))))
                (trimmed-newline l))
  ]
