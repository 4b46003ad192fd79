-- ===== src/Translate/Bash/Blocks/Else.antt =====
-- What becomes of a branch before an `else`, in the reader and in the engine.
use aish.Prelude.{ℕ, suc, ◌≡◌, refl, ap, ◌∙◌, some, List, [], ◌∷◌, codes}
use aish.Prelude.Int.{pos}
use aish.Translate.{Statement, Statements, done, cond, branch, no_branch}
use aish.Translate.Run.{System, Streams, exits, run_one, run_statements, and_next}
use aish.Translate.Bash.{PhysicalLine}
use aish.Translate.Bash.Headers.{skip_keyword_line}
use aish.Translate.Bash.Cases.{Read, and_read}
use aish.Translate.Bash.Blocks.{
  IfSoFar, cond_of, start_if, at_else, head_of, after_body, parse_block, parse_if,
}
use aish.Translate.Bash.Blocks.Kinds.{Fi, parse_if-Fi}

and_read-some :
    {A B : Type 0} (r : Read A) (f : A → List PhysicalLine → Read B) (a : A)
    (ls : List PhysicalLine)
    → r ≡ some (a, ls)
    → and_read r f ≡ f a ls
unfolding and_read
and_read-some r f a ls e = ap (λ o. and_read o f) e

-- The loop of parseIf at a branch that an `else` follows.
read_else :
    (n : ℕ) (c : IfSoFar) (x l m : PhysicalLine) (xs ls ms : List PhysicalLine)
    (before after : Statements)
    → parse_block
        (suc (suc n))
        (skip_keyword_line (codes "then") (x ∷ xs))
        (codes "elif" ∷ codes "else" ∷ codes "fi" ∷ [])
      ≡ some (before, l ∷ ls)
    → head_of (l ∷ ls) ≡ at_else
    → parse_block (suc (suc n)) (skip_keyword_line (codes "else") (l ∷ ls)) (codes "fi" ∷ [])
      ≡ some (after, m ∷ ms)
    → Fi m
    → parse_if (suc (suc (suc n))) c (x ∷ xs)
      ≡ some (
        cond_of (record c { body = done; otherwise = after }),
        skip_keyword_line (codes "fi") (m ∷ ms),
      )
unfolding parse_if after_body
read_else n c x l m xs ls ms before after h1 h2 h3 h4 =
    and_read-some _ _ before (l ∷ ls) h1
    ∙ ap
        (λ h.
          after_body (parse_block (suc (suc n))) (parse_if (suc (suc n)))
            (record c { body = before }) h (l ∷ ls))
        h2
    ∙ and_read-some _ _ after (m ∷ ms) h3
    ∙ parse_if-Fi n (record c { body = before; otherwise = after }) m ms h4

-- An `if` with one empty branch, whose test succeeds.
nothing_run :
    {W H : Type 0} (sys : System W H) (s : Streams H) (n : ℕ) (test : Statement)
    (after : Statements) (w w' : W)
    → run_one sys s test w ≡ (exits (pos 0), w')
    → run_one sys s (cond n (branch test done no_branch) after) w ≡ (exits (pos 0), w')
unfolding run_statements and_next
nothing_run sys s n test after w w' h = rw (h) refl

-- An `if` of a header, a body, a line of `else`, another body and a line of `fi` is read
-- with nothing in place of the first body. Run, it does nothing but the test where that succeeds.
pub else_drops_then :
    (n : ℕ) (header x l m : PhysicalLine) (xs ls ms : List PhysicalLine) (before after : Statements)
    → parse_block
        (suc (suc n))
        (skip_keyword_line (codes "then") (x ∷ xs))
        (codes "elif" ∷ codes "else" ∷ codes "fi" ∷ [])
      ≡ some (before, l ∷ ls)
    → head_of (l ∷ ls) ≡ at_else
    → parse_block (suc (suc n)) (skip_keyword_line (codes "else") (l ∷ ls)) (codes "fi" ∷ [])
      ≡ some (after, m ∷ ms)
    → Fi m
    → {W H : Type 0} (sys : System W H) (s : Streams H) (w w' : W)
    → run_one sys s (start_if header).test w ≡ (exits (pos 0), w')
    → (st : Statement) × (parse_if (suc (suc (suc n))) (start_if header) (x ∷ xs)
        ≡ some (st, skip_keyword_line (codes "fi") (m ∷ ms)))
      × (run_one sys s st w ≡ (exits (pos 0), w'))
unfolding cond_of start_if
else_drops_then n header x l m xs ls ms before after h1 h2 h3 h4 sys s w w' h = (
  cond_of (record (start_if header) { body = done; otherwise = after }),
  read_else n (start_if header) x l m xs ls ms before after h1 h2 h3 h4,
  nothing_run sys s (start_if header).line (start_if header).test after w w' h,
)
