-- ===== src/Translate/Bash/Cases.antt =====
-- shell/internal/translate/reader/bash.go: what readers of blocks return, and the arms of a case.
use aish.Prelude.{
  ℕ, zero, suc, ◌+◌, Bool, true, false, Option, none, some, List, [], ◌∷◌, map, if◌then◌else◌, take,
  drop, Text, codes, has_suffix, trim_suffix, index_text, text_eq, trim_space, split_rune_at,
}
use aish.Translate.{unknown, Statements, done, also, Arms, no_arm, arm}
use aish.Translate.Bash.{PhysicalLine}
use aish.Translate.Bash.Line.{first_word, parse_statement_line}
use aish.Translate.Bash.Headers.{skip_keyword_line}

-- `return lines, idx`: what was read and the lines that are left.
abbrev pub Read : Type 0 → Type 0
Read A = Option (A × List PhysicalLine)

unfoldable pub and_read : {A B : Type 0} → Read A → (A → List PhysicalLine → Read B) → Read B
and_read none f = none
and_read (some (a, ls)) f = f a ls

-- The statement of a case's line, unless nothing is left of it.
nonempty_statement : Text → ℕ → Statements
unfolding parse_statement_line
nonempty_statement [] n = done
nonempty_statement (r ∷ rs) n = also (parse_statement_line (r ∷ rs) n) done

-- The loop over the lines of an arm.
unfoldable pub arm_lines : List PhysicalLine → Statements × List PhysicalLine
unfolding trim_space text_eq has_suffix trim_suffix first_word parse_statement_line
    nonempty_statement
arm_lines [] = (done, [])
arm_lines (l ∷ ls) =
    let rest = arm_lines ls in
    let trimmed = trim_space l.text in
    if text_eq trimmed (codes ";;")
    then (done, ls)
    else if has_suffix trimmed (codes ";;")
    then (nonempty_statement (trim_space (trim_suffix trimmed (codes ";;"))) l.line, ls)
    else if text_eq (first_word trimmed) (codes "esac")
    then (done, l ∷ ls)
    else (also (parse_statement_line trimmed l.line) rest.0, rest.1)

-- The body of an arm, from the rest of its first line on.
unfoldable pub arm_body : Text → ℕ → List PhysicalLine → Statements × List PhysicalLine
unfolding arm_lines trim_space has_suffix trim_suffix parse_statement_line nonempty_statement
arm_body [] n ls = arm_lines ls
arm_body (r ∷ rs) n ls =
    if has_suffix (r ∷ rs) (codes ";;")
    then (nonempty_statement (trim_space (trim_suffix (r ∷ rs) (codes ";;"))) n, ls)
    else (also (parse_statement_line (r ∷ rs) n) (arm_lines ls).0, (arm_lines ls).1)

-- The arm whose pattern ends at an index of the header.
unfoldable pub arm_at :
    PhysicalLine
    → List PhysicalLine
    → Text
    → Option ℕ
    → (List Text × Statements) × List PhysicalLine
unfolding arm_body trim_space split_rune_at
arm_at l ls header none =
    ((header ∷ [], also (unknown l.line (codes "case arm without closing )") header) done), ls)
arm_at l ls header (some k) =
    let (body, rest) = arm_body (trim_space (drop (k + 1) header)) l.line ls in
    ((map trim_space (split_rune_at b'|' (take k header)), body), rest)

-- parseCaseArm: the patterns, the body and the lines that are left.
unfoldable pub parse_case_arm :
    PhysicalLine → List PhysicalLine → (List Text × Statements) × List PhysicalLine
unfolding arm_at index_text trim_space
parse_case_arm l ls = arm_at l ls (trim_space l.text) (index_text (trim_space l.text) (codes ")"))

-- A round of parseCase's loop, and the test for `esac`.
unfoldable pub arms_round :
    (List PhysicalLine → Read Arms) → Bool → PhysicalLine → List PhysicalLine → Read Arms
unfolding and_read parse_case_arm skip_keyword_line
arms_round arms true l ls = some (no_arm, skip_keyword_line (codes "esac") (l ∷ ls))
arms_round arms false l ls =
    let (a, rest) = parse_case_arm l ls in
    and_read (arms rest) (λ read lines. some (arm a.0 a.1 read, lines))

unfoldable pub read_arms : ℕ → List PhysicalLine → Read Arms
unfolding arms_round first_word trim_space text_eq
read_arms zero lines = none
read_arms (suc n) [] = some (no_arm, [])
read_arms (suc n) (l ∷ ls) =
    arms_round (read_arms n) (text_eq (first_word (trim_space l.text)) (codes "esac")) l ls
