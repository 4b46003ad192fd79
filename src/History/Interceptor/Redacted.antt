-- ===== src/History/Interceptor/Redacted.antt =====
-- What the history of a tainted pipeline holds: shell/internal/history/interceptor.go behind runExternal
-- of shell/internal/shell/shell.go.
use aish.Prelude.{
  ℕ, ◌≡◌, refl, ap, ◌∙◌, true, List, [], ◌∷◌, ◌++◌, Text, Option-cases, inl, inr, Bool, false,
  if◌then◌else◌,
}
use aish.Prelude.Int.{ℤ}
use aish.Parser.{Command, Pipeline}
use aish.History.Interceptor.{Services, History, record_command, before, after, history}
use aish.Shell.Taint.{has, tag_pipeline_taint}
use aish.Shell.Taint.Stages.{tag_pipeline_taint_lem}
use aish.Shell.Taint.Registered.{any_reveals_argument}
use aish.Env.{environ}
use aish.Parser.Expand.{Paths}
use aish.Shell.State.{Shell, Operations}
use aish.Shell.External.{
  intercepted, before_one, after_one, before_all, after_from, background, foreground, run_expanded,
}

module _ {W : Type 0} (srv : Services W) where
  before-redacted :
      (pl : Pipeline) (line line' : Text) (h : History W)
      → pl.tainted ≡ true
      → before srv pl line h ≡ before srv pl line' h
  unfolding before record_command
  before-redacted pl line line' h t = rw t

  before_one-redacted :
      (pl : Pipeline) (line line' : Text) (s : Shell (History W))
      → pl.tainted ≡ true
      → before_one (history srv) pl line s ≡ before_one (history srv) pl line' s
  unfolding before_one
  before_one-redacted pl line line' s t = rw (before-redacted pl line line' s.world t, before_one)

  choose :
      (b : Bool) (x y x' y' : Shell (History W))
      → x.world ≡ x'.world
      → y.world ≡ y'.world
      → (if b then x else y).world ≡ (if b then x' else y').world
  choose true x y x' y' h k = h
  choose false x y x' y' h k = k

  -- Two bodies that do the same but for what they do to the shell besides the world.
  abbrev Alike :
      (Shell (History W) → (ℤ × ℕ) × Shell (History W))
      → (Shell (History W) → (ℤ × ℕ) × Shell (History W))
      → Type 0
  Alike body body' =
      (s : Shell (History W)) → ((body s).0 ≡ (body' s).0) × ((body s).1.world ≡ (body' s).1.world)

  intercepted-redacted :
      (pl : Pipeline) (line line' : Text)
      (body body' : Shell (History W) → (ℤ × ℕ) × Shell (History W)) (s : Shell (History W))
      → pl.tainted ≡ true
      → Alike body body'
      → (intercepted (history srv ∷ []) pl line body s).world
        ≡ (intercepted (history srv ∷ []) pl line' body' s).world
  unfolding intercepted before_all after_from after_one after
  intercepted-redacted pl line line' body body' s t alike =
      let s₁ = before_one (history srv) pl line' s in
      ap (λ s₂. after srv pl line (body s₂).0.0 (body s₂).0.1 (body s₂).1.world)
        (before_one-redacted pl line line' s t)
      ∙ rw ((alike s₁).0, (alike s₁).1) refl

  module _ (ops : Operations (History W)) (paths : Paths) where
    -- runExternal's operations with the history as the one interceptor.
    abbrev pub recording : Operations (History W)
    recording = record ops { interceptors = history srv ∷ [] }

    background-Alike :
        (pl : Pipeline) (line line' : Text)
        → Alike (background recording paths pl line) (background recording paths pl line')
    unfolding background
    background-Alike pl line line' s =
        elim (Option-cases (ops.run_background pl (environ s.env) s.world).0) [
          | inl e ↦ rw (e, background) (refl, refl)
          | inr (p, e) ↦ rw (e, background) (refl, refl)
        ]

    -- The command line of a pipeline that has a registered secret as an argument never reaches the
    -- history: whatever the line says and whatever runs, in the foreground or in the background,
    -- runExternal with the history as its interceptor leaves the same history, and the same world
    -- besides, for every text of the command line. (The job table keeps the line of a background
    -- job.)
    pub run_expanded-redacted :
        (value line line' : Text) (pl : Pipeline) (front back : List Command) (stage : Command)
        (left right : List Text) (s : Shell (History W))
        → has value s.taint_reg ≡ true
        → pl.commands ≡ front ++ stage ∷ back
        → stage.args ≡ left ++ value ∷ right
        → (run_expanded recording paths pl line s).world
          ≡ (run_expanded recording paths pl line' s).world
    unfolding run_expanded
    run_expanded-redacted value line line' pl front back stage left right s h p a =
        let tagged = tag_pipeline_taint s.taint_reg pl in
        let t : tagged.tainted ≡ true =
          ap (λ (q : Pipeline). q.tainted) (tag_pipeline_taint_lem s.taint_reg pl)
          ∙ rw p
              (rw (any_reveals_argument value front back stage left right s.taint_reg a h) refl) in
        choose tagged.background
          (intercepted recording.interceptors tagged line (background recording paths tagged line)
            s)
          (intercepted recording.interceptors tagged line (foreground recording paths tagged) s)
          (intercepted recording.interceptors tagged line' (background recording paths tagged line')
            s)
          (intercepted recording.interceptors tagged line' (foreground recording paths tagged) s)
          (intercepted-redacted tagged line line' (background recording paths tagged line)
            (background recording paths tagged line') s t (background-Alike tagged line line'))
          (intercepted-redacted tagged line line' (foreground recording paths tagged)
            (foreground recording paths tagged) s t (λ s'. (refl, refl)))
