-- ===== src/Parser/Substitution/Executors.antt =====
-- What command substitution in shell/internal/parser/expand.go does when more of the commands that
-- it calls succeed.
use aish.Prelude.{
  ℕ, zero, suc, ◌≡◌, refl, Bool, true, false, ◌⊎◌, inl, inr, some, [], ◌∷◌, take, drop, Text,
  Bool-cases, Option-cases, codes, contains, trim_right_while, ◌==◌,
}
use aish.Parser.Substitution.{
  too_deep, unterminated, failed, Outcome, write, and_expanded, capture, sub_loop, expand_cmd_sub,
  expand_line, place, Place, opens_single, closes_single, within_single, escape, substitution,
  other, matching_paren, max_cmd_sub_depth,
}

pub Place-cases :
    (p : Place)
    → (p ≡ opens_single)
      ⊎ ((p ≡ closes_single)
          ⊎ ((p ≡ within_single) ⊎ ((p ≡ escape) ⊎ ((p ≡ substitution) ⊎ (p ≡ other)))))
Place-cases opens_single = inl refl
Place-cases closes_single = inr (inl refl)
Place-cases within_single = inr (inr (inl refl))
Place-cases escape = inr (inr (inr (inl refl)))
Place-cases substitution = inr (inr (inr (inr (inl refl))))
Place-cases other = inr (inr (inr (inr (inr refl))))

module _ {W E : Type 0} where
  abbrev pub Failed : Outcome W E → Type 0
  Failed (inl (failed c e), w) = Unit
  Failed (inl too_deep, w) = ⊥
  Failed (inl unterminated, w) = ⊥
  Failed (inr t, w) = ⊥

  -- The second outcome is the first, unless a command failed in that.
  abbrev pub Extends : Outcome W E → Outcome W E → Type 0
  Extends o o' = Failed o ⊎ (o' ≡ o)

  write-Failed : (t : Text) (o : Outcome W E) → Failed o → Failed (write t o)
  unfolding write
  write-Failed t (inl (failed c e), w) h = tt
  write-Failed t (inl too_deep, w) h = h
  write-Failed t (inl unterminated, w) h = h
  write-Failed t (inr u, w) h = h

  write-Extends : (t : Text) (o o' : Outcome W E) → Extends o o' → Extends (write t o) (write t o')
  write-Extends t o o' (inl h) = inl (write-Failed t o h)
  write-Extends t o o' (inr e) = inr (rw e)

  and_expanded-Failed :
      (o : Outcome W E) (f : Text → W → Outcome W E) → Failed o → Failed (and_expanded o f)
  unfolding and_expanded
  and_expanded-Failed (inl (failed c e), w) f h = tt
  and_expanded-Failed (inl too_deep, w) f h = h
  and_expanded-Failed (inl unterminated, w) f h = h
  and_expanded-Failed (inr u, w) f h = absurd h

  and_expanded-same :
      (o : Outcome W E) (f f' : Text → W → Outcome W E)
      → ((t : Text) (w : W) → Extends (f t w) (f' t w))
      → Extends (and_expanded o f) (and_expanded o f')
  unfolding and_expanded
  and_expanded-same (inl e, w) f f' h = inr refl
  and_expanded-same (inr t, w) f f' h = h t w

  and_expanded-Extends :
      (o o' : Outcome W E) (f f' : Text → W → Outcome W E)
      → Extends o o'
      → ((t : Text) (w : W) → Extends (f t w) (f' t w))
      → Extends (and_expanded o f) (and_expanded o' f')
  and_expanded-Extends o o' f f' (inl h) g = inl (and_expanded-Failed o f h)
  and_expanded-Extends o o' f f' (inr e) g = rw e (and_expanded-same o f f' g)

  -- What the first executor does without an error, the second does too.
  abbrev pub Better : (Text → W → (E ⊎ Text) × W) → (Text → W → (E ⊎ Text) × W) → Type 0
  Better run run' =
      (c : Text) (w : W) → ((e : E) × (w' : W) × (run c w ≡ (inl e, w'))) ⊎ (run' c w ≡ run c w)

  module _ (run run' : Text → W → (E ⊎ Text) × W) (better : Better run run') where
    capture-same :
        (c : Text) (next next' : W → Outcome W E) (r : (E ⊎ Text) × W)
        → ((w : W) → Extends (next w) (next' w))
        → Extends (capture run c next r) (capture run' c next' r)
    unfolding capture
    capture-same c next next' (inl e, w) h = inl tt
    capture-same c next next' (inr out, w) h =
        write-Extends (trim_right_while (λ r. r == b'\n') out) (next w) (next' w) (h w)

    capture-Extends :
        (c d : Text) (w : W) (next next' : W → Outcome W E)
        → ((w' : W) → Extends (next w') (next' w'))
        → Extends (capture run c next (run d w)) (capture run' c next' (run' d w))
    unfolding capture
    capture-Extends c d w next next' h = elim (better d w) [
      | inl (e, w', p) ↦ inl (rw (p, capture) tt)
      | inr p ↦ rw p (capture-same c next next' (run d w) h)
    ]

    module _ (inner inner' : Text → W → Outcome W E)
        (deeper : (t : Text) (w : W) → Extends (inner t w) (inner' t w)) where
      sub_loop-Extends :
          (skip : ℕ) (in_single : Bool) (input : Text) (w : W)
          → Extends
              (sub_loop run inner skip in_single input w)
              (sub_loop run' inner' skip in_single input w)
      unfolding sub_loop
      sub_loop-Extends skip in_single [] w = inr refl
      sub_loop-Extends (suc skip) in_single (r ∷ rs) w = sub_loop-Extends skip in_single rs w
      sub_loop-Extends zero in_single (r ∷ rs) w = elim (Place-cases (place in_single r rs)) [
        | inl e ↦
            rw (e, sub_loop)
              (write-Extends (r ∷ []) (sub_loop run inner 0 true rs w)
                (sub_loop run' inner' 0 true rs w) (sub_loop-Extends 0 true rs w))
        | inr (inl e) ↦
            rw (e, sub_loop)
              (write-Extends (r ∷ []) (sub_loop run inner 0 false rs w)
                (sub_loop run' inner' 0 false rs w) (sub_loop-Extends 0 false rs w))
        | inr (inr (inl e)) ↦
            rw (e, sub_loop)
              (write-Extends (r ∷ []) (sub_loop run inner 0 in_single rs w)
                (sub_loop run' inner' 0 in_single rs w) (sub_loop-Extends 0 in_single rs w))
        | inr (inr (inr (inl e))) ↦
            rw (e, sub_loop)
              (write-Extends (r ∷ take 1 rs) (sub_loop run inner 1 in_single rs w)
                (sub_loop run' inner' 1 in_single rs w) (sub_loop-Extends 1 in_single rs w))
        | inr (inr (inr (inr (inl e)))) ↦
            elim (Option-cases (matching_paren 1 false false (drop 1 rs))) [
              | inl open_end ↦ rw (e, sub_loop, open_end) (inr refl)
              | inr (k, closed) ↦
                  rw (e, sub_loop, closed)
                    (and_expanded-Extends (inner (take k (drop 1 rs)) w)
                      (inner' (take k (drop 1 rs)) w)
                      (λ t w'.
                        capture run (take k (drop 1 rs))
                          (sub_loop run inner (suc (suc k)) in_single rs) (run t w'))
                      (λ t w'.
                        capture run' (take k (drop 1 rs))
                          (sub_loop run' inner' (suc (suc k)) in_single rs) (run' t w'))
                      (deeper (take k (drop 1 rs)) w)
                      (λ t w'.
                        capture-Extends (take k (drop 1 rs)) t w'
                          (sub_loop run inner (suc (suc k)) in_single rs)
                          (sub_loop run' inner' (suc (suc k)) in_single rs)
                          (λ w''. sub_loop-Extends (suc (suc k)) in_single rs w'')))
            ]
        | inr (inr (inr (inr (inr e)))) ↦
            rw (e, sub_loop)
              (write-Extends (r ∷ []) (sub_loop run inner 0 in_single rs w)
                (sub_loop run' inner' 0 in_single rs w) (sub_loop-Extends 0 in_single rs w))
      ]

    expand_cmd_sub-Extends :
        (n : ℕ) (input : Text) (w : W)
        → Extends (expand_cmd_sub run n input w) (expand_cmd_sub run' n input w)
    unfolding expand_cmd_sub
    expand_cmd_sub-Extends zero input w = inr refl
    expand_cmd_sub-Extends (suc n) input w = elim (Bool-cases (contains input (codes "$("))) [
      | inl e ↦
          rw (e, expand_cmd_sub)
            (sub_loop-Extends (expand_cmd_sub run n) (expand_cmd_sub run' n)
              (expand_cmd_sub-Extends n) 0 false input w)
      | inr e ↦ rw (e, expand_cmd_sub) (inr refl)
    ]

    pub expand_line-Extends :
        (input : Text) (w : W)
        → Extends (expand_line (some run) input w) (expand_line (some run') input w)
    unfolding expand_line
    expand_line-Extends input w = expand_cmd_sub-Extends (suc max_cmd_sub_depth) input w
