-- ===== src/Parser/Substitution/Keeps.antt =====
-- What command substitution in shell/internal/parser/expand.go keeps of the world: all that the
-- commands keep.
use aish.Prelude.{
  ℕ, zero, suc, Bool, true, false, ◌⊎◌, inl, inr, some, [], ◌∷◌, take, drop, Text, Bool-cases,
  Option-cases, codes, contains,
}
use aish.Parser.Substitution.{
  Outcome, write, and_expanded, capture, sub_loop, expand_cmd_sub, expand_line, place,
  matching_paren, max_cmd_sub_depth,
}
use aish.Parser.Substitution.Executors.{Place-cases}

module _ {W E : Type 0} (P : W → Type 0) where
  write-Keeps : (t : Text) (o : Outcome W E) → P o.1 → P (write t o).1
  unfolding write
  write-Keeps t (inl e, w) h = h
  write-Keeps t (inr u, w) h = h

  and_expanded-Keeps :
      (o : Outcome W E) (f : Text → W → Outcome W E)
      → P o.1
      → ((t : Text) (w : W) → P w → P (f t w).1)
      → P (and_expanded o f).1
  unfolding and_expanded
  and_expanded-Keeps (inl e, w) f h k = h
  and_expanded-Keeps (inr t, w) f h k = k t w h

  module _ (run : Text → W → (E ⊎ Text) × W) (kept : (t : Text) (w : W) → P w → P (run t w).1) where
    capture-Keeps :
        (t : Text) (f : W → Outcome W E) (r : (E ⊎ Text) × W)
        → P r.1
        → ((w : W) → P w → P (f w).1)
        → P (capture run t f r).1
    unfolding capture
    capture-Keeps t f (inl e, w) h k = h
    capture-Keeps t f (inr out, w) h k = write-Keeps _ (f w) (k w h)

    module _ (inner : Text → W → Outcome W E)
        (deeper : (t : Text) (w : W) → P w → P (inner t w).1) where
      sub_loop-Keeps :
          (skip : ℕ) (in_single : Bool) (input : Text) (w : W)
          → P w
          → P (sub_loop run inner skip in_single input w).1
      unfolding sub_loop
      sub_loop-Keeps skip in_single [] w h = h
      sub_loop-Keeps (suc skip) in_single (r ∷ rs) w h = sub_loop-Keeps skip in_single rs w h
      sub_loop-Keeps zero in_single (r ∷ rs) w h = elim (Place-cases (place in_single r rs)) [
        | inl e ↦
            rw (e, sub_loop)
              (write-Keeps (r ∷ []) (sub_loop run inner 0 true rs w) (sub_loop-Keeps 0 true rs w h))
        | inr (inl e) ↦
            rw (e, sub_loop)
              (write-Keeps (r ∷ []) (sub_loop run inner 0 false rs w)
                (sub_loop-Keeps 0 false rs w h))
        | inr (inr (inl e)) ↦
            rw (e, sub_loop)
              (write-Keeps (r ∷ []) (sub_loop run inner 0 in_single rs w)
                (sub_loop-Keeps 0 in_single rs w h))
        | inr (inr (inr (inl e))) ↦
            rw (e, sub_loop)
              (write-Keeps (r ∷ take 1 rs) (sub_loop run inner 1 in_single rs w)
                (sub_loop-Keeps 1 in_single rs w h))
        | inr (inr (inr (inr (inl e)))) ↦
            elim (Option-cases (matching_paren 1 false false (drop 1 rs))) [
              | inl open_end ↦ rw (e, sub_loop, open_end) h
              | inr (k, closed) ↦
                  rw (e, sub_loop, closed)
                    (and_expanded-Keeps (inner (take k (drop 1 rs)) w)
                      (λ t w'.
                        capture run (take k (drop 1 rs))
                          (sub_loop run inner (suc (suc k)) in_single rs) (run t w'))
                      (deeper (take k (drop 1 rs)) w h)
                      (λ t w' h'.
                        capture-Keeps (take k (drop 1 rs))
                          (sub_loop run inner (suc (suc k)) in_single rs) (run t w') (kept t w' h')
                          (λ w'' h''. sub_loop-Keeps (suc (suc k)) in_single rs w'' h'')))
            ]
        | inr (inr (inr (inr (inr e)))) ↦
            rw (e, sub_loop)
              (write-Keeps (r ∷ []) (sub_loop run inner 0 in_single rs w)
                (sub_loop-Keeps 0 in_single rs w h))
      ]

    expand_cmd_sub-Keeps : (n : ℕ) (input : Text) (w : W) → P w → P (expand_cmd_sub run n input w).1
    unfolding expand_cmd_sub
    expand_cmd_sub-Keeps zero input w h = h
    expand_cmd_sub-Keeps (suc n) input w h = elim (Bool-cases (contains input (codes "$("))) [
      | inl e ↦
          rw (e, expand_cmd_sub)
            (sub_loop-Keeps (expand_cmd_sub run n) (expand_cmd_sub-Keeps n) 0 false input w h)
      | inr e ↦ rw (e, expand_cmd_sub) h
    ]

    pub expand_line-Keeps : (input : Text) (w : W) → P w → P (expand_line (some run) input w).1
    unfolding expand_line
    expand_line-Keeps input w h = expand_cmd_sub-Keeps (suc max_cmd_sub_depth) input w h
