-- ===== src/Shell/Repl.antt =====
-- runStream and readLine of shell/internal/shell/shell.go, and drainJobNotices of jobs_dispatch.go.
pub mod Stream
pub mod Notices
use aish.Prelude.{
  ℕ, zero, suc, Bool, true, false, ◌||◌, Option, none, some, List, [], ◌∷◌, ◌++◌, ◌==◌,
  if◌then◌else◌, Text, Rune, codes, text_eq, trim_right_while, itoa,
}
use aish.Prelude.Int.{ℤ, pos}
use aish.Jobs.{
  Job, JobTable, JobStatus, Notice, running, stopped, done, flag_text, pad, pending_notices, reap,
}

-- readLine: the line with its newline, what is left of the input, and whether the input ended. An
-- input that fails in another way than by its end is left out.
pub record Line : Type 0 where
  pub text : Text
  pub left : Text
  pub ended : Bool

unfoldable pub read_line : Text → Line
read_line [] = record { text = []; left = []; ended = true }
read_line (c ∷ input) =
    let rest = read_line input in
    if c == b'\n'
    then record { text = c ∷ []; left = input; ended = false }
    else record rest { text = c ∷ rest.text }

abbrev pub is_line_end : Rune → Bool
is_line_end r = (r == b'\r') || (r == b'\n')

-- strings.TrimRight(line, "\r\n")
abbrev pub trimmed : Text → Text
trimmed line = trim_right_while is_line_end line

-- How the loop ends: at the end of the input, with the code of a sentinel, or where the prompt cannot
-- be written.
pub data End : Type 0 where
  eof : End
  sentinel : ℤ → End
  no_prompt : End

-- The verbs `[%d]%s  ` at the head of a line about a job.
unfoldable pub notice_head : Notice → Text
unfolding itoa flag_text
notice_head n = b'[' ∷ (itoa (pos n.id) ++ (b']' ∷ (flag_text n.flag ++ codes "  ")))

unfoldable pub done_text : ℕ → Text
unfolding pad itoa
done_text zero = codes "Done       "
done_text (suc code) = codes "Exit " ++ (pad 3 (itoa (pos (suc code))) ++ codes "  ")

unfoldable pub notice_line : JobStatus → Notice → Text
unfolding notice_head done_text
notice_line running n = []
notice_line stopped n = notice_head n ++ (codes "Stopped    " ++ (n.cmdline ++ (b'\n' ∷ [])))
notice_line done n = notice_head n ++ (done_text n.exit_code ++ (n.cmdline ++ (b'\n' ∷ [])))

unfoldable pub notice_lines : List Notice → Text
unfolding notice_line
notice_lines [] = []
notice_lines (n ∷ ns) = notice_line n.status n ++ notice_lines ns

-- drainJobNotices: what it prints, and the table. The three orders are those in which the loops of
-- Reap visit the map.
unfoldable pub drain_job_notices :
    (List Job → List Job)
    → (List Job → List Job)
    → (List Job → List Job)
    → JobTable
    → Text × JobTable
unfolding notice_lines pending_notices reap
drain_job_notices visit by_high by_second jt =
    let (ns, jt') = pending_notices jt in (notice_lines ns, (reap visit by_high by_second jt').1)

-- The notices, the prompt, which says whether it was written, and dispatch, which gets what is left
-- of the input and may consume some of it.
pub record Loop (S : Type 0) : Type 0 where
  pub drain : S → S
  pub prompt : S → Bool × S
  pub dispatch : Text → Text → S → (Option ℤ × Text) × S

module _ {S : Type 0} (loop : Loop S) where
  -- A line that was read: how the loop ends, if it does, what is left of the input, and the state.
  unfoldable pub handle : Line → S → (Option End × Text) × S
  unfolding text_eq trim_right_while
  handle line s = elim (trimmed line.text) [
    | [] ↦ ((if line.ended then some eof else none, line.left), s)
    | c ∷ t ↦
        (let ((code, left), s') = loop.dispatch (c ∷ t) line.left s in
          elim code [
            | some n ↦ ((some (sentinel n), left), s')
            | none ↦ ((if line.ended then some eof else none, left), s')
          ])
  ]

  -- runStream, by how many lines it may read.
  unfoldable pub run_stream : ℕ → Text → S → Option (End × S)
  unfolding handle read_line
  run_stream zero input s = none
  run_stream (suc n) input s =
      let (written, s₁) = loop.prompt (loop.drain s) in
      elim written [
        | false ↦ some (no_prompt, s₁)
        | true ↦
            (let ((end, left), s₂) = handle (read_line input) s₁ in
              elim end [ some e ↦ some (e, s₂) | none ↦ run_stream n left s₂ ])
      ]
