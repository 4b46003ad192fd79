-- ===== src/Shell/External/Secrets.antt =====
-- That a secret which a `$(secret get NAME)` puts on a line taints the pipeline: RunForCapture and
-- runExternal of shell/internal/shell/shell.go together with taint.go.
use aish.Prelude.{
  ℕ, suc, ◌≡◌, ◌≢◌, refl, ap, subst, ◌∙◌, ◌⊎◌, inl, inr, true, Option, none, some, List, [], ◌∷◌,
  ◌++◌, Text,
}
use aish.Parser.{Command, Pipeline}
use aish.Parser.Expand.{Paths}
use aish.Jobs.{JobTable}
use aish.Shell.Taint.{Registry, has, tag_pipeline_taint, is_secret_get_invocation}
use aish.Shell.Taint.Stages.{tag_pipeline_taint_lem}
use aish.Shell.Taint.Registered.{
  without_newlines, has-register_captured, has-add, add-none, any_reveals_argument,
}
use aish.Shell.State.{Shell, Operations}
use aish.Shell.External.{Exhausted, run_external_with, captured, run_for_capture}
use aish.Shell.External.Keeps.{Kept, run_for_capture-Holds, run_external_with-Kept}

abbrev IsOpen : JobTable → Registry → Type 0
IsOpen jt r = r ≢ none

abbrev Registered : Text → JobTable → Registry → Type 0
Registered v jt r = has v r ≡ true

module _ {W : Type 0} (ops : Operations W) (paths : Paths) where
  written : (Exhausted ⊎ Text) → Text
  written (inl e) = []
  written (inr t) = t

  captured-has :
      (cmd : Text) (s : Shell W) (o : Option (Shell W)) (out : Text) (s' : Shell W) (c : ℕ)
      (v : Text)
      → Kept IsOpen o
      → is_secret_get_invocation cmd ≡ true
      → captured ops paths cmd s o ≡ (inr out, s')
      → without_newlines out ≡ c ∷ v
      → has (c ∷ v) s'.taint_reg ≡ true
  unfolding captured written
  captured-has cmd s none out s' c v k h e t = absurd (cc e)
  captured-has cmd s (some s₁) out s' c v k h e t =
      subst (λ r. has (c ∷ v) r ≡ true) (ap (λ r. r.1.taint_reg) e)
        (has-register_captured cmd s₁.out c v s₁.taint_reg h
          (ap without_newlines (ap (λ r. written r.0) e) ∙ t) k)

  -- A secret that is substituted on a line taints the pipeline. While a line is dispatched, if
  -- RunForCapture runs `secret get` and its output, less the newlines at the end, is a text that is
  -- not empty, then tagPipelineTaint, even after another substitution of the same line, taints every
  -- pipeline in which some stage has this text as an argument.
  pub secret_taints :
      (n m : ℕ) (cmd later out : Text) (s s' : Shell W) (c : ℕ) (v : Text) (pl : Pipeline)
      (before after : List Command) (stage : Command) (left right : List Text)
      → s.taint_reg ≢ none
      → is_secret_get_invocation cmd ≡ true
      → run_for_capture ops paths (suc n) cmd s ≡ (inr out, s')
      → without_newlines out ≡ c ∷ v
      → pl.commands ≡ before ++ stage ∷ after
      → stage.args ≡ left ++ (c ∷ v) ∷ right
      → (tag_pipeline_taint (run_for_capture ops paths m later s').1.taint_reg pl).tainted ≡ true
  unfolding run_for_capture
  secret_taints n m cmd later out s s' c v pl before after stage left right reg h e t p a =
      let s₀ : Shell W = record s { out = [] } in
      let run = run_for_capture ops paths n in
      let now =
        captured-has cmd s (run_external_with ops paths run cmd s₀) out s' c v
          (run_external_with-Kept IsOpen ops paths (λ p l t jt r q. q) (λ t jt. add-none t) run cmd
            s₀ (run_for_capture-Holds IsOpen ops paths (λ p l t jt r q. q) (λ t jt. add-none t) n)
            reg)
          h e t in
      let still =
        run_for_capture-Holds (Registered (c ∷ v)) ops paths (λ p l t jt r q. q)
          (λ t jt r q. has-add c v t r q) m later s' now in
      let r = (run_for_capture ops paths m later s').1.taint_reg in
      ap (λ (q : Pipeline). q.tainted) (tag_pipeline_taint_lem r pl)
      ∙ rw p (rw (any_reveals_argument (c ∷ v) before after stage left right r a still) refl)
