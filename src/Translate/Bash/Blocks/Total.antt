-- ===== src/Translate/Bash/Blocks/Total.antt =====
-- Every script is read: the fuel that ReadBash's model gives is enough.
use aish.Prelude.{
  ℕ, zero, suc, ◌+◌, ◌*◌, ◌≤◌, ◌<◌, ◌≡◌, refl, ap, true, Option, none, some, List, [], ◌∷◌, Text,
  codes, text_eq, trim_space, length, arith,
}
use aish.Translate.{Statement, Statements, done}
use aish.Translate.Bash.{PhysicalLine}
use aish.Translate.Bash.Line.{first_word}
use aish.Translate.Bash.Headers.{lex_lines, skip_keyword_line}
use aish.Translate.Bash.Cases.{Read, and_read, read_arms}
use aish.Translate.Bash.Blocks.{
  kind_of, one_of, IfSoFar, cond_of, next_branch, Head, no_line, at_elif, at_else, at_fi, at_other,
  head_of, after_body, parse_block, parse_if, read_bash,
}
use aish.Translate.Bash.Blocks.Kinds.{terminator_first, parse_if-Fi}
use aish.Translate.Bash.Blocks.Rounds.{
  Reads, Stops, Ends, and_read-Reads_at, more, skip_keyword_line_le, read_arms-Reads,
  read_line-Ends,
}

-- A round of parseIf's loop, with readers that are good for all lines that are left.
module _ (K : ℕ) (block : List PhysicalLine → List Text → Read Statements)
    (again : IfSoFar → List PhysicalLine → Read Statement)
    (blocks : (ls : List PhysicalLine) (terms : List Text)
      → length ls ≤ K
      → Ends terms (length ls) (block ls terms))
    (fewer : (c : IfSoFar) (ls : List PhysicalLine) → length ls < K → Reads K (again c ls))
    (fi_next : (c : IfSoFar) (ls : List PhysicalLine)
      → length ls ≤ K
      → Stops (codes "fi" ∷ []) ls
      → Reads K (again c ls)) where
  after_body-Reads :
      (c : IfSoFar) (h : Head) (ls : List PhysicalLine)
      → length ls ≤ K
      → Reads K (after_body block again c h ls)
  unfolding after_body
  after_body-Reads c no_line ls le = ((cond_of c, ls), refl, le)
  after_body-Reads c at_elif [] le = ((cond_of c, []), refl, omega arith)
  after_body-Reads c at_elif (m ∷ ms) le = fewer (next_branch m c) ms (omega (arith, le))
  after_body-Reads c at_else ls le =
      let (p, e, less, stops) =
        blocks (skip_keyword_line (codes "else") ls) (codes "fi" ∷ [])
          (omega (arith, le, skip_keyword_line_le (codes "else") ls)) in
      and_read-Reads_at K _ (λ body rest. again (record c { otherwise = body }) rest) p e
        (fi_next (record c { otherwise = p.0 }) p.1
          (omega (arith, le, less, skip_keyword_line_le (codes "else") ls)) stops)
  after_body-Reads c at_fi ls le = (
    (cond_of c, skip_keyword_line (codes "fi") ls),
    refl,
    omega (arith, le, skip_keyword_line_le (codes "fi") ls),
  )
  after_body-Reads c at_other ls le = ((cond_of c, ls), refl, le)

  round-Reads :
      (c : IfSoFar) (ls : List PhysicalLine)
      → length ls ≤ K
      → Reads K (
          and_read
            (block
              (skip_keyword_line (codes "then") ls)
              (codes "elif" ∷ codes "else" ∷ codes "fi" ∷ []))
            (λ body lines. after_body block again (record c { body = body }) (head_of lines) lines))
  round-Reads c ls le =
      let (p, e, less, stops) =
        blocks (skip_keyword_line (codes "then") ls) (codes "elif" ∷ codes "else" ∷ codes "fi" ∷ [])
          (omega (arith, le, skip_keyword_line_le (codes "then") ls)) in
      and_read-Reads_at K _
        (λ body lines. after_body block again (record c { body = body }) (head_of lines) lines) p e
        (after_body-Reads (record c { body = p.0 }) (head_of p.1) p.1
          (omega (arith, le, less, skip_keyword_line_le (codes "then") ls)))

stops_at-Reads :
    (n K : ℕ) (c : IfSoFar) (ls : List PhysicalLine)
    → 1 < n
    → length ls ≤ K
    → Stops (codes "fi" ∷ []) ls
    → Reads K (parse_if n c ls)
unfolding parse_if
stops_at-Reads zero K c ls lt le h = absurd (omega arith)
stops_at-Reads (suc zero) K c ls lt le h = absurd (omega (arith, lt))
stops_at-Reads (suc (suc n)) K c [] lt le h = ((cond_of c, []), refl, omega arith)
stops_at-Reads (suc (suc n)) K c (l ∷ ls) lt le h = (
  (cond_of (record c { body = done }), skip_keyword_line (codes "fi") (l ∷ ls)),
  parse_if-Fi n c l ls (one_first (terminator_first (trim_space l.text) (codes "fi" ∷ []) h)),
  omega (arith, le, skip_keyword_line_le (codes "fi") (l ∷ ls)),
)
  where
    one_first :
        one_of (first_word (trim_space l.text)) (codes "fi" ∷ []) ≡ true
        → text_eq (first_word (trim_space l.text)) (codes "fi") ≡ true
    one_first e = ground (arith, e)

mutual
  unfolding parse_block

  block_total :
      (n : ℕ) (ls : List PhysicalLine) (terms : List Text)
      → 2 * length ls < n
      → Ends terms (length ls) (parse_block n ls terms)
  block_total zero ls terms h = absurd (omega arith)
  block_total (suc n) [] terms h = ((done, []), refl, omega arith, tt)
  block_total (suc n) (l ∷ ls) terms h =
      read_line-Ends (length ls) (parse_block n)
        (λ rest terms' le. block_total n rest terms' (omega (arith, h, le))) (parse_if n)
        (read_arms n) (kind_of (trim_space l.text) terms) l ls terms
        (λ c. if_total n (length ls) c ls (omega arith) (omega (arith, h)))
        (read_arms-Reads n (length ls) ls (omega arith) (omega (arith, h))) refl refl

  if_total :
      (n K : ℕ) (c : IfSoFar) (ls : List PhysicalLine)
      → length ls ≤ K
      → 2 * length ls + 1 < n
      → Reads K (parse_if n c ls)
  if_total zero K c ls le h = absurd (omega arith)
  if_total (suc n) K c [] le h = ((cond_of c, []), refl, omega arith)
  if_total (suc n) K c (l ∷ ls) le h = more (length (l ∷ ls)) K _ le (
      round-Reads (length (l ∷ ls)) (parse_block n) (parse_if n)
        (λ rest terms le'. block_total n rest terms (omega (arith, h, le')))
        (λ c' rest lt.
          if_total n (length (l ∷ ls)) c' rest (omega (arith, lt)) (omega (arith, h, lt)))
        (λ c' rest. stops_at-Reads n (length (l ∷ ls)) c' rest (omega (arith, h))) c (l ∷ ls)
        (omega arith))

-- ReadBash reads every script: no loop of the reader runs for ever, whatever the lines are.
pub read_bash_ends : (src : Text) → (script : Statements) × (read_bash src ≡ some script)
unfolding read_bash
read_bash_ends src =
    let (p, e, le, stops) =
      block_total (suc (2 * length (lex_lines src))) (lex_lines src) [] (omega arith) in
    (p.0, ap (λ r. elim r as (λ x. Option Statements) [ none ↦ none | some q ↦ some q.0 ]) e)
