-- ===== src/Shell/External/Around.antt =====
-- In what order runExternal of shell/internal/shell/shell.go calls its interceptors.
use aish.Prelude.{
  ℕ, zero, suc, ◌≡◌, refl, sym, ap, inl, inr, Bool, true, false, ◌++◌, Bool-cases, List, [], ◌∷◌,
  Text, get_elem?, length, Option-cases,
}
use aish.Prelude.Int.{ℤ}
use aish.Parser.{Pipeline}
use aish.Shell.State.{Shell, Interceptor, set_last_exit, Complaint, interceptor_failed}
use aish.Shell.External.{before_one, after_one, before_all, after_from, intercepted, complain_if}

-- The errors after a Before, which may have failed.
abbrev pub noted : Bool → List Complaint → List Complaint
noted true errors = errors ++ interceptor_failed ∷ []
noted false errors = errors

module _ {W : Type 0} where
  -- The calls nested in each other: the first interceptor is outermost. A Before changes the world
  -- and leaves a message if it fails; an After gets the exit code and the duration of the body and
  -- changes the world.
  unfoldable pub around :
      List (Interceptor W)
      → Pipeline
      → Text
      → (Shell W → (ℤ × ℕ) × Shell W)
      → Shell W
      → (ℤ × ℕ) × Shell W
  around [] pl line body s = body s
  around (ic ∷ ics) pl line body s =
      let (refused, w) = ic.before pl line s.world in
      let ((code, dur), s') =
        around ics pl line body (record s { world = w; errors = noted refused s.errors }) in
      ((code, dur), record s' { world = ic.after pl line code dur s'.world })

module _ {W : Type 0} (pl : Pipeline) (line : Text) where
  after_from-cons :
      (n : ℕ) (ic : Interceptor W) (ics : List (Interceptor W)) (code : ℤ) (dur : ℕ) (s : Shell W)
      → after_from (suc n) (ic ∷ ics) pl line code dur s
        ≡ after_one ic pl line code dur (after_from n ics pl line code dur s)
  unfolding after_from
  after_from-cons zero ic ics code dur s = refl
  after_from-cons (suc n) ic ics code dur s = elim (Option-cases (get_elem? ics n)) [
    | inl e ↦ rw (e, after_from) (after_from-cons n ic ics code dur s)
    | inr (i, e) ↦
        rw (e, after_from) (after_from-cons n ic ics code dur (after_one i pl line code dur s))
  ]

  before_one-noted :
      (ic : Interceptor W) (s : Shell W)
      → before_one ic pl line s ≡ record s {
        world = (ic.before pl line s.world).1;
        errors = noted (ic.before pl line s.world).0 s.errors;
      }
  unfolding before_one complain_if
  before_one-noted ic s = elim (Bool-cases (ic.before pl line s.world).0) [
    | inl e ↦ rw (e, before_one)
    | inr e ↦ rw (e, before_one)
  ]

  around_lem :
      (ics : List (Interceptor W)) (body : Shell W → (ℤ × ℕ) × Shell W) (s : Shell W)
      → around ics pl line body s ≡ (
          let ((code, dur), s') = body (before_all ics pl line s) in
          ((code, dur), after_from (length ics) ics pl line code dur s'))
  unfolding around before_all after_from after_one
  around_lem [] body s = refl
  around_lem (ic ∷ ics) body s =
      let s₁ : Shell W = record s {
        world = (ic.before pl line s.world).1;
        errors = noted (ic.before pl line s.world).0 s.errors;
      } in
      let r = body (before_all ics pl line s₁) in
      rw (before_one-noted ic s, around_lem ics body s₁)
        (ap (λ t. (r.0, t)) (sym (after_from-cons (length ics) ic ics r.0.0 r.0.1 r.1)))

  -- The calls of the interceptors mirror each other: what the two loops do is what the interceptors
  -- do when each is wrapped around the later ones, with the pipeline in the middle, whatever they do
  -- to the world; a failing Before only leaves a message. The exit code that every After gets is the
  -- one that is recorded.
  pub intercepted-around :
      (ics : List (Interceptor W)) (body : Shell W → (ℤ × ℕ) × Shell W) (s : Shell W)
      → intercepted ics pl line body s
        ≡ (let ((code, dur), s') = around ics pl line body s in set_last_exit code s')
  unfolding intercepted
  intercepted-around ics body s = rw (around_lem ics body s)
