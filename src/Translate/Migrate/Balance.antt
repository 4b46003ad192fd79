-- ===== src/Translate/Migrate/Balance.antt =====
-- The blocks of a script that is written out again.
use aish.Prelude.{
  ℕ, suc, ◌+◌, ◌≡◌, refl, ap, sym, ◌∙◌, Bool, true, false, Option, none, some, List, [], ◌∷◌, ◌++◌,
  append_assoc,
}
use aish.Translate.{
  Statement, comment, assign, simple, piped, cond, loop_for, loop_while, case_of, func_def, unknown,
  Statements, done, also, Branches, no_branch, branch, Arms, no_arm, arm,
}
use aish.Translate.Migrate.{
  Says, opens_if, opens_elif, opens_else, closes_if, opens_for, opens_while, closes_loop,
  opens_case, opens_arm, closes_arm, closes_case, opens_function, closes_function, MigratedLine, at,
  migrate_statement, migrate_statements, migrate_branches, migrate_else, migrate_arms,
}

-- The blocks that are open.
pub data Block : Type 0 where
  in_if in_loop in_case in_arm in_function : Block

abbrev same : Block → Block → Bool
same in_if in_if = true
same in_loop in_loop = true
same in_case in_case = true
same in_arm in_arm = true
same in_function in_function = true
same _ _ = false

-- Closes the innermost block, if it is of this kind.
unfoldable close : Block → List Block → Option (List Block)
close b [] = none
close b (c ∷ bs) = elim (same b c) [ true ↦ some bs | false ↦ none ]

-- What a line does to the open blocks.
unfoldable step : Says → List Block → Option (List Block)
unfolding close
step (opens_if test) bs = some (in_if ∷ bs)
step (opens_elif test) bs = elim (close in_if bs) [ none ↦ none | some _ ↦ some bs ]
step opens_else bs = elim (close in_if bs) [ none ↦ none | some _ ↦ some bs ]
step closes_if bs = close in_if bs
step (opens_for var words) bs = some (in_loop ∷ bs)
step (opens_while test) bs = some (in_loop ∷ bs)
step closes_loop bs = close in_loop bs
step (opens_case word) bs = some (in_case ∷ bs)
step (opens_arm patterns) bs = elim (close in_case bs) [ none ↦ none | some _ ↦ some (in_arm ∷ bs) ]
step closes_arm bs = close in_arm bs
step closes_case bs = close in_case bs
step (opens_function name) bs = some (in_function ∷ bs)
step closes_function bs = close in_function bs
step _ bs = some bs

-- The open blocks after some lines, unless one of them does not fit.
unfoldable pub scan : List MigratedLine → List Block → Option (List Block)
unfolding step
scan [] bs = some bs
scan (l ∷ ls) bs = elim (step l.content bs) [ none ↦ none | some cs ↦ scan ls cs ]

-- Every `if` of the script has a branch.
unfoldable mutual
  pub Whole : Statement → Type 0
  Whole (cond n no_branch others) = ⊥
  Whole (cond n (branch test body rest) others) = Wholes body × WholeBranches rest × Wholes others
  Whole (loop_for n var words body) = Wholes body
  Whole (loop_while n test body) = Wholes body
  Whole (case_of n word arms) = WholeArms arms
  Whole (func_def n name body) = Wholes body
  Whole _ = Unit {0}

  pub Wholes : Statements → Type 0
  Wholes done = Unit {0}
  Wholes (also st rest) = Whole st × Wholes rest

  pub WholeBranches : Branches → Type 0
  WholeBranches no_branch = Unit {0}
  WholeBranches (branch test body rest) = Wholes body × WholeBranches rest

  pub WholeArms : Arms → Type 0
  WholeArms no_arm = Unit {0}
  WholeArms (arm patterns body rest) = Wholes body × WholeArms rest

-- Lines that leave the open blocks as they were.
abbrev Neutral : List MigratedLine → List Block → Type 0
Neutral ls bs = (rest : List MigratedLine) → scan (ls ++ rest) bs ≡ scan rest bs

append-Neutral :
    (ls ms : List MigratedLine) (bs : List Block)
    → Neutral ls bs
    → Neutral ms bs
    → Neutral (ls ++ ms) bs
append-Neutral ls ms bs h k rest =
    ap (λ l. scan l bs) (append_assoc ls ms rest) ∙ h (ms ++ rest) ∙ k rest

-- Lines between an opening line and the closing one.
closed :
    (ls : List MigratedLine) (l : MigratedLine) (bs cs : List Block) (rest : List MigratedLine)
    → Neutral ls bs
    → step l.content bs ≡ some cs
    → scan ((ls ++ l ∷ []) ++ rest) bs ≡ scan rest cs
unfolding scan
closed ls l bs cs rest h e =
    ap (λ m. scan m bs) (append_assoc ls (l ∷ []) rest) ∙ h (l ∷ rest) ∙ rw (e, scan) refl

mutual
  unfolding migrate_statement scan step close Whole

  statement-Neutral :
      (st : Statement) (indent : ℕ) (bs : List Block)
      → Whole st
      → Neutral (migrate_statement st indent) bs
  statement-Neutral (comment n text) indent bs h = λ rest. refl
  statement-Neutral (assign n name value exported) indent bs h = λ rest. refl
  statement-Neutral (simple c) indent bs h = λ rest. refl
  statement-Neutral (piped n stages) indent bs h = λ rest. refl
  statement-Neutral (cond n no_branch others) indent bs h = absurd h
  statement-Neutral (cond n (branch test body more) others) indent bs (h, k, l) = λ rest.
      let inner = migrate_statements body (indent + 1) ++ migrate_branches more 1 indent in
      ap (λ m. scan (m ++ rest) (in_if ∷ bs))
        (sym (append_assoc inner (migrate_else others indent) (at indent closes_if ∷ [])))
      ∙ closed (inner ++ migrate_else others indent) (at indent closes_if) (in_if ∷ bs) bs rest
          (append-Neutral inner (migrate_else others indent) (in_if ∷ bs)
            (append-Neutral (migrate_statements body (indent + 1)) (migrate_branches more 1 indent)
              (in_if ∷ bs) (statements-Neutral body (indent + 1) (in_if ∷ bs) h)
              (branches-Neutral more 0 indent bs k))
            (else-Neutral others indent bs l))
          refl
  statement-Neutral (loop_for n var words body) indent bs h = λ rest.
      closed (migrate_statements body (indent + 1)) (at indent closes_loop) (in_loop ∷ bs) bs rest
        (statements-Neutral body (indent + 1) (in_loop ∷ bs) h) refl
  statement-Neutral (loop_while n test body) indent bs h = λ rest.
      closed (migrate_statements body (indent + 1)) (at indent closes_loop) (in_loop ∷ bs) bs rest
        (statements-Neutral body (indent + 1) (in_loop ∷ bs) h) refl
  statement-Neutral (case_of n word arms) indent bs h = λ rest.
      closed (migrate_arms arms indent) (at indent closes_case) (in_case ∷ bs) bs rest
        (arms-Neutral arms indent bs h) refl
  statement-Neutral (func_def n name body) indent bs h = λ rest.
      closed (migrate_statements body (indent + 1)) (at indent closes_function) (in_function ∷ bs)
        bs rest (statements-Neutral body (indent + 1) (in_function ∷ bs) h) refl
  statement-Neutral (unknown n reason source) indent bs h = λ rest. refl

  statements-Neutral :
      (ss : Statements) (indent : ℕ) (bs : List Block)
      → Wholes ss
      → Neutral (migrate_statements ss indent) bs
  statements-Neutral done indent bs h = λ rest. refl
  statements-Neutral (also st more) indent bs (h, k) =
      append-Neutral (migrate_statement st indent) (migrate_statements more indent) bs
        (statement-Neutral st indent bs h) (statements-Neutral more indent bs k)

  branches-Neutral :
      (more : Branches) (i indent : ℕ) (bs : List Block)
      → WholeBranches more
      → Neutral (migrate_branches more (suc i) indent) (in_if ∷ bs)
  branches-Neutral no_branch i indent bs h = λ rest. refl
  branches-Neutral (branch test body more) i indent bs (h, k) =
      append-Neutral (migrate_statements body (indent + 1))
        (migrate_branches more (suc (suc i)) indent) (in_if ∷ bs)
        (statements-Neutral body (indent + 1) (in_if ∷ bs) h)
        (branches-Neutral more (suc i) indent bs k)

  else-Neutral :
      (ss : Statements) (indent : ℕ) (bs : List Block)
      → Wholes ss
      → Neutral (migrate_else ss indent) (in_if ∷ bs)
  else-Neutral done indent bs h = λ rest. refl
  else-Neutral (also st more) indent bs (h, k) =
      append-Neutral (migrate_statement st (indent + 1)) (migrate_statements more (indent + 1))
        (in_if ∷ bs) (statement-Neutral st (indent + 1) (in_if ∷ bs) h)
        (statements-Neutral more (indent + 1) (in_if ∷ bs) k)

  arms-Neutral :
      (arms : Arms) (indent : ℕ) (bs : List Block)
      → WholeArms arms
      → Neutral (migrate_arms arms indent) (in_case ∷ bs)
  arms-Neutral no_arm indent bs h = λ rest. refl
  arms-Neutral (arm patterns body more) indent bs (h, k) = λ rest.
      let inner = migrate_statements body (indent + 2) in
      ap (λ m. scan m (in_arm ∷ in_case ∷ bs))
        (append_assoc inner (at indent closes_arm ∷ migrate_arms more indent) rest)
      ∙ statements-Neutral body (indent + 2) (in_arm ∷ in_case ∷ bs) h
          (at indent closes_arm ∷ (migrate_arms more indent ++ rest))
      ∙ arms-Neutral more indent bs k rest
