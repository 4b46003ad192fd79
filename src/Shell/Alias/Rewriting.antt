-- ===== src/Shell/Alias/Rewriting.antt =====
-- How far resolveAlias of shell/internal/shell/builtin_alias.go goes, and where it stops.
use aish.Prelude.{
  ℕ, zero, suc, ◌<◌, ◌≤◌, ◌≡◌, refl, sym, subst, ◌⊎◌, inl, inr, true, false, Option, none, some,
  List, [], ◌∷◌, ◌++◌, arith, length, Bool-cases, Option-cases, if◌then◌else◌, List-cases, Text,
  text_eq, text_eq_iff, trim_prefix,
}
use aish.Shell.{first_token}
use aish.Shell.Alias.{
  Aliases, Warning, cycle, alias_get, seen_before, resolve_loop, resolve_alias, alias_cap,
}

-- How many entries have a name that is not among `seen`.
fresh : List Text → Aliases → ℕ
fresh seen [] = 0
fresh seen ((k, v) ∷ m) = let rest = fresh seen m in if seen_before seen k then rest else suc rest

fresh-weaken : (k : Text) (seen : List Text) (m : Aliases) → fresh (k ∷ seen) m ≤ fresh seen m
unfolding fresh seen_before
fresh-weaken k seen [] = omega arith
fresh-weaken k seen ((j, v) ∷ m) = ground (arith, fresh-weaken k seen m)

fresh-less :
    (k : Text) (seen : List Text) (m : Aliases) {v : Text}
    → alias_get k m ≡ some v
    → seen_before seen k ≡ false
    → fresh (k ∷ seen) m < fresh seen m
unfolding fresh seen_before alias_get
fresh-less k seen [] h u = cc
fresh-less k seen ((j, w) ∷ m) {v = v} h u =
    ground
      (arith, fresh-weaken k seen m, fresh-less k seen m {v = v}, text_eq_iff j k, text_eq_iff k j)

fresh-nil : (m : Aliases) → fresh [] m ≡ length m
unfolding fresh seen_before
fresh-nil [] = refl
fresh-nil (x ∷ m) = omega (arith, fresh-nil m)

-- The lines that rewriting the first token leads to, with the tokens that are rewritten.
pub data Rewrites (m : Aliases) : List Text → Text → Text → Type 0 where
  stay : (line : Text) → Rewrites m [] line line
  rewrite :
      {names : List Text} {first value final : Text} (line : Text)
      → first_token line ≡ first
      → alias_get first m ≡ some value
      → Rewrites m names (value ++ trim_prefix line first) final
      → Rewrites m (first ∷ names) line final

abbrev pub Among : Text → List Text → Type 0
Among v [] = ⊥
Among v (t ∷ ts) = (v ≡ t) ⊎ Among v ts

-- Why the loop stops: the first token is empty or no alias, or it is one that was rewritten before.
pub data Stops (m : Aliases) (Before : Text → Type 0) : Text × Option Warning → Type 0 where
  blank : (line : Text) → first_token line ≡ [] → Stops m Before (line, none)
  plain :
      {first : Text} (line : Text)
      → first_token line ≡ first
      → alias_get first m ≡ none
      → Stops m Before (line, none)
  cyclic :
      {first value : Text} (line : Text)
      → first_token line ≡ first
      → alias_get first m ≡ some value
      → Before first
      → Stops m Before (line, some (cycle first))

Stops-map :
    {m : Aliases} {P Q : Text → Type 0} {r : Text × Option Warning}
    → ((t : Text) → P t → Q t)
    → Stops m P r
    → Stops m Q r
Stops-map f (blank line e) = blank line e
Stops-map f (plain line e u) = plain line e u
Stops-map f (cyclic {first = first} line e u b) = cyclic line e u (f first b)

abbrev Earlier : List Text → List Text → Text → Type 0
Earlier names seen t = Among t names ⊎ (seen_before seen t ≡ true)

-- The outcome of a run of the loop with `n` rewritings at most.
abbrev Ran : Aliases → List Text → ℕ → Text → Text × Option Warning → Type 0
Ran m seen n line r =
    (names : List Text) × (length names ≤ n)
    × Rewrites m names line r.0
    × Stops m (Earlier names seen) r

-- Some tokens are rewritten, at most so many, and the loop stops after them.
pub Resolved : Aliases → ℕ → Text → Text × Option Warning → Type 0
Resolved m n line r =
    (names : List Text) × (length names ≤ n)
    × Rewrites m names line r.0
    × Stops m (λ t. Among t names) r

Earlier-now :
    (first : Text) (names seen : List Text) (t : Text)
    → Earlier names (first ∷ seen) t
    → Earlier (first ∷ names) seen t
unfolding seen_before
Earlier-now first names seen t (inl a) = inl (inr a)
Earlier-now first names seen t (inr b) = elim (Bool-cases (text_eq first t)) [
  | inl e ↦ inl (inl (sym ((text_eq_iff first t).0 e)))
  | inr e ↦ inr (rw e at b)
]

at_once :
    (m : Aliases) (seen : List Text) (n : ℕ) (line : Text) (w : Option Warning)
    → Stops m (Earlier [] seen) (line, w)
    → Ran m seen n line (line, w)
at_once m seen n line w h = ([], omega arith, stay line, h)

after_one :
    (m : Aliases) (seen : List Text) (k n : ℕ) (line first value : Text) (r : Text × Option Warning)
    → first_token line ≡ first
    → alias_get first m ≡ some value
    → k < n
    → Ran m (first ∷ seen) k (value ++ trim_prefix line first) r
    → Ran m seen n line r
after_one m seen k n line first value r e found lt (names, le, path, stops) = (
  first ∷ names,
  omega arith,
  rewrite line e found path,
  Stops-map (Earlier-now first names seen) stops,
)

loop-Ran :
    (m : Aliases) (n : ℕ) (seen : List Text) (line : Text)
    → fresh seen m < n
    → Ran m seen (fresh seen m) line (resolve_loop m n seen line)
unfolding resolve_loop
loop-Ran m zero seen line h = absurd (omega arith)
loop-Ran m (suc n) seen line h = elim (List-cases (first_token line)) [
  | inl e ↦ rw (e, resolve_loop) (at_once m seen (fresh seen m) line none (blank line e))
  | inr (c, s, e) ↦ elim (Option-cases (alias_get (c ∷ s) m)) [
    | inl unknown ↦
        rw (e, resolve_loop, unknown)
          (at_once m seen (fresh seen m) line none (plain {first = c ∷ s} line e unknown))
    | inr (value, found) ↦ elim (Bool-cases (seen_before seen (c ∷ s))) [
      | inl again ↦
          rw (e, resolve_loop, found, again)
            (at_once m seen (fresh seen m) line (some (cycle (c ∷ s)))
              (cyclic line e found (inr again)))
      | inr new ↦
          rw (e, resolve_loop, found, new)
            (after_one m seen (fresh ((c ∷ s) ∷ seen) m) (fresh seen m) line (c ∷ s) value
              (resolve_loop m n ((c ∷ s) ∷ seen) (value ++ trim_prefix line (c ∷ s))) e found
              (fresh-less (c ∷ s) seen m found new)
              (loop-Ran m n ((c ∷ s) ∷ seen) (value ++ trim_prefix line (c ∷ s))
                (omega (arith, fresh-less (c ∷ s) seen m found new))))
    ]
  ]
]

from_start : (names : List Text) (t : Text) → Earlier names [] t → Among t names
unfolding seen_before
from_start names t (inl a) = a
from_start names t (inr b) = absurd (cc b)

Ran-Resolved :
    (m : Aliases) (n : ℕ) (line : Text) (r : Text × Option Warning)
    → Ran m [] n line r
    → Resolved m n line r
unfolding Resolved
Ran-Resolved m n line r (names, le, path, stops) =
    (names, le, path, Stops-map (from_start names) stops)

-- With fewer aliases than its 16 rounds, resolveAlias never gives up: it rewrites the first token
-- of the line, at most as often as there are aliases, and stops at a line that is blank or begins
-- with no alias, without a warning, or at one that begins with an alias that it rewrote before,
-- which it names as a cycle.
pub resolve_alias-Resolved :
    (m : Aliases) (line : Text)
    → length m < alias_cap
    → Resolved m (length m) line (resolve_alias m line)
unfolding resolve_alias
resolve_alias-Resolved [] line h =
    Ran-Resolved [] 0 line (line, none) (at_once [] [] 0 line none (plain line refl refl))
resolve_alias-Resolved (a ∷ m) [] h =
    Ran-Resolved (a ∷ m) (length (a ∷ m)) [] ([], none)
      (at_once (a ∷ m) [] (length (a ∷ m)) [] none (blank [] refl))
resolve_alias-Resolved (a ∷ m) (c ∷ line) h =
    let r = resolve_loop (a ∷ m) alias_cap [] (c ∷ line) in
    Ran-Resolved (a ∷ m) (length (a ∷ m)) (c ∷ line) r (
      subst (λ k. Ran (a ∷ m) [] k (c ∷ line) r) (fresh-nil (a ∷ m))
        (loop-Ran (a ∷ m) 16 [] (c ∷ line) (omega (arith, fresh-nil (a ∷ m)))))
