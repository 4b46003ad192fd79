-- ===== src/Translate.antt =====
-- shell/internal/translate/ast.go: the statements that scripts of all dialects are read into.
pub mod Format
pub mod Run
pub mod Explain
pub mod Bash
pub mod Migrate
mod Tests
use aish.Prelude.{ℕ, Bool, List, Text, Option}

pub data RedirectOp : Type 0 where
  redirect_in redirect_out redirect_append redirect_err_out redirect_err_to_out : RedirectOp

pub record Redirect : Type 0 where
  pub op : RedirectOp
  pub target : Text

pub record Command : Type 0 where
  pub line : ℕ
  pub name : Text
  pub args : List Text
  pub redirects : List Redirect

-- The first number of each constructor is the line. A Loop is one of two constructors, by its
-- Kind; `Statements`, `Branches` and `Arms` are the slices of the code.
mutual
  pub data Statement : Type 0 where
    comment : ℕ → Text → Statement
    assign : ℕ → Text → Text → Bool → Statement
    simple : Command → Statement
    piped : ℕ → List Command → Statement
    cond : ℕ → Branches → Statements → Statement
    loop_for : ℕ → Text → List Text → Statements → Statement
    loop_while : ℕ → Statement → Statements → Statement
    case_of : ℕ → Text → Arms → Statement
    func_def : ℕ → Text → Statements → Statement
    unknown : ℕ → Text → Text → Statement

  pub data Statements : Type 0 where
    done : Statements
    also : Statement → Statements → Statements

  pub data Branches : Type 0 where
    no_branch : Branches
    branch : Statement → Statements → Branches → Branches

  pub data Arms : Type 0 where
    no_arm : Arms
    arm : List Text → Statements → Arms → Arms

-- Line
unfoldable pub line_of : Statement → ℕ
line_of (comment n text) = n
line_of (assign n name value exported) = n
line_of (simple c) = c.line
line_of (piped n stages) = n
line_of (cond n branches otherwise) = n
line_of (loop_for n var words body) = n
line_of (loop_while n test body) = n
line_of (case_of n word arms) = n
line_of (func_def n name body) = n
line_of (unknown n reason source) = n

unfoldable pub append : Statements → Statements → Statements
append done ys = ys
append (also x xs) ys = also x (append xs ys)
