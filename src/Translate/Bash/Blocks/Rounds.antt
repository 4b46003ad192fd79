-- ===== src/Translate/Bash/Blocks/Rounds.antt =====
-- What is left of the lines after a line of each kind, and after the arms of a case.
use aish.Prelude.{
  ℕ, zero, suc, ◌+◌, ◌≤◌, ◌<◌, ◌≡◌, refl, ap, sym, subst, Bool, true, false, Option, none, some,
  List, [], ◌∷◌, drop, index_text, Text, codes, text_eq, trim_space, length, arith,
}
use aish.Translate.{Statement, Statements, Arms, no_arm, arm, done, also}
use aish.Translate.Bash.{PhysicalLine}
use aish.Translate.Bash.Line.{first_word}
use aish.Translate.Bash.Headers.{skip_keyword_line, skip_brace}
use aish.Translate.Bash.Cases.{
  Read, and_read, arm_lines, arm_body, arm_at, parse_case_arm, arms_round, read_arms,
}
use aish.Translate.Bash.Blocks.{
  LineKind, empty, remark, terminator, opens_if, opens_for, opens_while, opens_case, opens_function,
  opens_parens, unsupported, plain, kind_of, IfSoFar, start_if, and_statement, and_close, read_loop,
  read_braces, read_line,
}

-- Something is read, and at most `m` lines are left.
abbrev pub Reads : {A : Type 0} → ℕ → Read A → Type 0
Reads {A = A} m r = (p : A × List PhysicalLine) × (r ≡ some p) × (length p.1 ≤ m)

-- The lines begin with a terminator, if there are any.
abbrev pub Stops : List Text → List PhysicalLine → Type 0
Stops terms [] = Unit {0}
Stops terms (l ∷ ls) = kind_of (trim_space l.text) terms ≡ terminator

-- A block is read, at most `m` lines are left, and they begin with a terminator.
abbrev pub Ends : List Text → ℕ → Read Statements → Type 0
Ends terms m r =
    (p : Statements × List PhysicalLine) × (r ≡ some p) × (length p.1 ≤ m) × Stops terms p.1

-- The same where what is read is known.
pub and_read-Reads_at :
    {A B : Type 0} (k : ℕ) (r : Read A) (f : A → List PhysicalLine → Read B)
    (p : A × List PhysicalLine)
    → r ≡ some p
    → Reads k (f p.0 p.1)
    → Reads k (and_read r f)
unfolding and_read
and_read-Reads_at k r f p e h = subst (λ o. Reads k (and_read o f)) (sym e) h

and_read-Ends :
    {A : Type 0} (terms : List Text) (m k : ℕ) (r : Read A)
    (f : A → List PhysicalLine → Read Statements)
    → Reads m r
    → ((a : A) (ls : List PhysicalLine) → length ls ≤ m → Ends terms k (f a ls))
    → Ends terms k (and_read r f)
unfolding and_read
and_read-Ends terms m k r f (p, e, le) g =
    subst (λ o. Ends terms k (and_read o f)) (sym e) (g p.0 p.1 le)

and_statement-Ends :
    (st : Statement) (terms : List Text) (m : ℕ) (r : Read Statements)
    → Ends terms m r
    → Ends terms m (and_statement st r)
unfolding and_statement and_read
and_statement-Ends st terms m r (p, e, le, stops) =
    ((also st p.0, p.1), ap (and_statement st) e, le, stops)

-- More lines may be left.
pub more : {A : Type 0} (m k : ℕ) (r : Read A) → m ≤ k → Reads m r → Reads k r
more m k r h (p, e, le) = (p, e, omega (arith, h, le))

weaken :
    (terms : List Text) (m k : ℕ) (r : Read Statements) → m ≤ k → Ends terms m r → Ends terms k r
weaken terms m k r h (p, e, le, stops) = (p, e, omega (arith, h, le), stops)

pub skip_keyword_line_le :
    (kw : Text) (ls : List PhysicalLine) → length (skip_keyword_line kw ls) ≤ length ls
unfolding skip_keyword_line
skip_keyword_line_le kw [] = omega arith
skip_keyword_line_le kw (l ∷ ls) = ground arith

skip_brace_le : (brace : Text) (ls : List PhysicalLine) → length (skip_brace brace ls) ≤ length ls
unfolding skip_brace
skip_brace_le brace [] = omega arith
skip_brace_le brace (l ∷ ls) = ground arith

module _ (K : ℕ) (block : List PhysicalLine → List Text → Read Statements)
    (blocks : (ls : List PhysicalLine) (terms : List Text)
      → length ls ≤ K
      → Ends terms (length ls) (block ls terms)) where
  read_loop-Reads : (ls : List PhysicalLine) → length ls ≤ K → Reads K (read_loop block ls)
  unfolding read_loop and_close
  read_loop-Reads ls h =
      let (p, e, le, stops) =
        blocks (skip_keyword_line (codes "do") ls) (codes "done" ∷ [])
          (omega (arith, h, skip_keyword_line_le (codes "do") ls)) in
      (
        (p.0, skip_keyword_line (codes "done") p.1),
        ap (and_close (codes "done")) e,
        omega (
          arith,
          h,
          le,
          skip_keyword_line_le (codes "do") ls,
          skip_keyword_line_le (codes "done") p.1,
        ),
      )

  read_braces-Reads : (ls : List PhysicalLine) → length ls ≤ K → Reads K (read_braces block ls)
  unfolding read_braces and_read
  read_braces-Reads ls h =
      let (p, e, le, stops) =
        blocks (skip_brace (codes "{") ls) (codes "}" ∷ [])
          (omega (arith, h, skip_brace_le (codes "{") ls)) in
      (
        (p.0, skip_brace (codes "}") p.1),
        ap (λ o. and_read o (λ body rest. some (body, skip_brace (codes "}") rest))) e,
        omega (arith, h, le, skip_brace_le (codes "{") ls, skip_brace_le (codes "}") p.1),
      )

  -- A statement and the rest of the block, from lines that are no more.
  goes_on :
      (st : Statement) (terms : List Text) (ls : List PhysicalLine)
      → length ls ≤ K
      → Ends terms (suc K) (and_statement st (block ls terms))
  goes_on st terms ls h =
      and_statement-Ends st terms (suc K) (block ls terms)
        (weaken terms (length ls) (suc K) (block ls terms) (omega (arith, h)) (blocks ls terms h))

  pub read_line-Ends :
      (ifs : IfSoFar → List PhysicalLine → Read Statement) (arms : List PhysicalLine → Read Arms)
      (k : LineKind) (l : PhysicalLine) (ls : List PhysicalLine) (terms : List Text)
      → ((c : IfSoFar) → Reads K (ifs c ls))
      → Reads K (arms ls)
      → kind_of (trim_space l.text) terms ≡ k
      → length ls ≡ K
      → Ends terms (suc K) (read_line block ifs arms k l ls terms)
  unfolding read_line
  read_line-Ends ifs arms empty l ls terms hi ha e h =
      weaken terms (length ls) (suc K) _ (omega (arith, h)) (blocks ls terms (omega (arith, h)))
  read_line-Ends ifs arms terminator l ls terms hi ha e h =
      ((done, l ∷ ls), refl, omega (arith, h), e)
  read_line-Ends ifs arms remark l ls terms hi ha e h = goes_on _ terms ls (omega (arith, h))
  read_line-Ends ifs arms opens_if l ls terms hi ha e h =
      and_read-Ends terms K (suc K) _ _ (hi (start_if l)) (λ st rest. goes_on st terms rest)
  read_line-Ends ifs arms opens_for l ls terms hi ha e h =
      and_read-Ends terms K (suc K) _ _ (read_loop-Reads ls (omega (arith, h)))
        (λ body rest. goes_on _ terms rest)
  read_line-Ends ifs arms opens_while l ls terms hi ha e h =
      and_read-Ends terms K (suc K) _ _ (read_loop-Reads ls (omega (arith, h)))
        (λ body rest. goes_on _ terms rest)
  read_line-Ends ifs arms opens_case l ls terms hi ha e h =
      and_read-Ends terms K (suc K) _ _ ha (λ read rest. goes_on _ terms rest)
  read_line-Ends ifs arms opens_function l ls terms hi ha e h =
      and_read-Ends terms K (suc K) _ _ (read_braces-Reads ls (omega (arith, h)))
        (λ body rest. goes_on _ terms rest)
  read_line-Ends ifs arms opens_parens l ls terms hi ha e h =
      and_read-Ends terms K (suc K) _ _ (read_braces-Reads ls (omega (arith, h)))
        (λ body rest. goes_on _ terms rest)
  read_line-Ends ifs arms (unsupported reason) l ls terms hi ha e h =
      goes_on _ terms ls (omega (arith, h))
  read_line-Ends ifs arms plain l ls terms hi ha e h = goes_on _ terms ls (omega (arith, h))

arm_lines_le : (ls : List PhysicalLine) → length (arm_lines ls).1 ≤ length ls
unfolding arm_lines
arm_lines_le [] = omega arith
arm_lines_le (l ∷ ls) = ground (arith, arm_lines_le ls)

arm_body_le :
    (text : Text) (n : ℕ) (ls : List PhysicalLine) → length (arm_body text n ls).1 ≤ length ls
unfolding arm_body
arm_body_le [] n ls = arm_lines_le ls
arm_body_le (r ∷ rs) n ls = ground (arith, arm_lines_le ls)

parse_case_arm_le :
    (l : PhysicalLine) (ls : List PhysicalLine) → length (parse_case_arm l ls).1 ≤ length ls
unfolding parse_case_arm arm_at
parse_case_arm_le l ls = by_index (index_text (trim_space l.text) (codes ")"))
  where
    by_index : (o : Option ℕ) → length (arm_at l ls (trim_space l.text) o).1 ≤ length ls
    by_index none = omega arith
    by_index (some k) = arm_body_le (trim_space (drop (k + 1) (trim_space l.text))) l.line ls

arms_step :
    (n : ℕ) (b : Bool) (l : PhysicalLine) (ls : List PhysicalLine)
    → ((rest : List PhysicalLine) → length rest ≤ length ls → Reads (length ls) (read_arms n rest))
    → Reads (suc (length ls)) (arms_round (read_arms n) b l ls)
unfolding arms_round and_read
arms_step n true l ls h = (
  (no_arm, skip_keyword_line (codes "esac") (l ∷ ls)),
  refl,
  skip_keyword_line_le (codes "esac") (l ∷ ls),
)
arms_step n false l ls h =
    let (p, e, le) = h (parse_case_arm l ls).1 (parse_case_arm_le l ls) in
    (
      (arm (parse_case_arm l ls).0.0 (parse_case_arm l ls).0.1 p.0, p.1),
      ap
          (λ o. and_read o (λ arms lines.
            some (arm (parse_case_arm l ls).0.0 (parse_case_arm l ls).0.1 arms, lines)))
          e,
      omega (arith, le),
    )

pub read_arms-Reads :
    (n K : ℕ) (ls : List PhysicalLine) → length ls ≤ K → K < n → Reads K (read_arms n ls)
unfolding read_arms
read_arms-Reads zero K ls h lt = absurd (omega arith)
read_arms-Reads (suc n) K [] h lt = ((no_arm, []), refl, omega arith)
read_arms-Reads (suc n) zero (l ∷ ls) h lt = absurd (omega arith)
read_arms-Reads (suc n) (suc K) (l ∷ ls) h lt =
    more (suc (length ls)) (suc K) _ (omega (arith, h)) (
      arms_step n (text_eq (first_word (trim_space l.text)) (codes "esac")) l ls
        (λ rest le. read_arms-Reads n (length ls) rest le (omega (arith, h, lt))))
