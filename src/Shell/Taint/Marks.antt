-- ===== src/Shell/Taint/Marks.antt =====
-- What tagPipelineTaint of shell/internal/shell/taint.go marks, said without its tests.
use aish.Prelude.{
  ◌≡◌, ◌≢◌, refl, ap, ◌∙◌, ◌⊎◌, ◌↔◌, inl, inr, Bool, true, false, ◌||◌, ◌&&◌, none, some, List, [],
  ◌∷◌, map, Text, codes, text_eq, text_eq_iff, List-cases,
}
use aish.Parser.{Command, Pipeline}
use aish.Shell.Taint.{Registry, among, has, any_has, is_secret_get_stage, tag_pipeline_taint}
use aish.Shell.Taint.Stages.{reveals, any_reveals, marked, tag_pipeline_taint_lem}

-- The stage is `secret get`, with any arguments after it.
abbrev pub SecretGet : Command → Type 0
SecretGet c = (c.name ≡ codes "secret") × ((rest : List Text) × (c.args ≡ codes "get" ∷ rest))

abbrev pub Among : Text → List Text → Type 0
Among v [] = ⊥
Among v (t ∷ ts) = (t ≡ v) ⊎ Among v ts

-- A text that is not empty was added to the registry.
abbrev pub Registered : Text → Registry → Type 0
Registered v none = ⊥
Registered v (some texts) = (v ≢ []) × Among v texts

abbrev pub AnyRegistered : List Text → Registry → Type 0
AnyRegistered [] reg = ⊥
AnyRegistered (v ∷ vs) reg = Registered v reg ⊎ AnyRegistered vs reg

-- Why a stage is tainted: it reads a secret, or its name or an argument is a registered text.
abbrev pub Reveals : Registry → Command → Type 0
Reveals reg c = SecretGet c ⊎ AnyRegistered (c.name ∷ c.args) reg

abbrev pub AnyReveals : Registry → List Command → Type 0
AnyReveals reg [] = ⊥
AnyReveals reg (c ∷ cs) = Reveals reg c ⊎ AnyReveals reg cs

-- The stages before and after: only the marks differ, and a stage has one afterwards exactly if it
-- had one or there is a reason.
abbrev pub Tagged : Registry → List Command → List Command → Type 0
Tagged reg [] [] = Unit {0}
Tagged reg (c ∷ cs) (d ∷ ds) =
    (d ≡ record c { tainted = d.tainted })
    × ((d.tainted ≡ true) ↔ ((c.tainted ≡ true) ⊎ Reveals reg c))
    × Tagged reg cs ds
Tagged reg _ _ = ⊥

or_iff : (a b : Bool) → ((a || b) ≡ true) ↔ ((a ≡ true) ⊎ (b ≡ true))
or_iff true b = (λ h. inl refl, λ h. refl)
or_iff false b = (λ h. inr h, λ h. elim h [ inl e ↦ absurd (cc e) | inr e ↦ e ])

or_lem : (a b : Bool) {P Q : Type 0} → (a ≡ true) ↔ P → (b ≡ true) ↔ Q → ((a || b) ≡ true) ↔ (P ⊎ Q)
or_lem a b p q = (
  λ h. elim ((or_iff a b).0 h) [ inl e ↦ inl (p.0 e) | inr e ↦ inr (q.0 e) ],
  λ h. (or_iff a b).1 (elim h [ inl e ↦ inl (p.1 e) | inr e ↦ inr (q.1 e) ]),
)

among_iff : (v : Text) (ts : List Text) → (among v ts ≡ true) ↔ Among v ts
unfolding among
among_iff v [] = (λ e. absurd (cc e), λ h. absurd h)
among_iff v (t ∷ ts) = or_lem (text_eq t v) (among v ts) (text_eq_iff t v) (among_iff v ts)

has_iff : (v : Text) (reg : Registry) → (has v reg ≡ true) ↔ Registered v reg
unfolding has
has_iff v none = (λ e. absurd (cc e), λ h. absurd h)
has_iff [] (some ts) = (λ e. absurd (cc e), λ h. absurd (h.0 refl))
has_iff (c ∷ v) (some ts) =
    (λ e. (λ p. absurd (cc p), (among_iff (c ∷ v) ts).0 e), λ h. (among_iff (c ∷ v) ts).1 h.1)

any_has_iff : (vs : List Text) (reg : Registry) → (any_has vs reg ≡ true) ↔ AnyRegistered vs reg
unfolding any_has
any_has_iff [] reg = (λ e. absurd (cc e), λ h. absurd h)
any_has_iff (v ∷ vs) reg = or_lem (has v reg) (any_has vs reg) (has_iff v reg) (any_has_iff vs reg)

and_iff : (a b : Bool) → ((a && b) ≡ true) ↔ ((a ≡ true) × (b ≡ true))
and_iff true b = (λ h. (refl, h), λ h. h.1)
and_iff false b = (λ h. absurd (cc h), λ h. absurd (cc h.0))

stage_iff : (c : Command) → (is_secret_get_stage c ≡ true) ↔ SecretGet c
unfolding is_secret_get_stage
stage_iff c = elim (List-cases c.args) [
  | inl e ↦ (λ h. absurd (cc (rw (e, is_secret_get_stage) at h)), λ h. absurd (cc (h.1.1, e)))
  | inr (a, args, e) ↦
      let tests = and_iff (text_eq c.name (codes "secret")) (text_eq a (codes "get")) in
      (
        λ h.
            let (p, q) = tests.0 (rw (e, is_secret_get_stage) at h) in
            (
              (text_eq_iff c.name (codes "secret")).0 p,
              (args, e ∙ ap (λ t. t ∷ args) ((text_eq_iff a (codes "get")).0 q)),
            ),
        λ h.
            rw (e, is_secret_get_stage)
              (tests.1 (
                (text_eq_iff c.name (codes "secret")).1 h.0,
                (text_eq_iff a (codes "get")).1 (cc (e, h.1.1)),
              )),
      )
]

reveals_iff : (reg : Registry) (c : Command) → (reveals reg c ≡ true) ↔ Reveals reg c
unfolding reveals
reveals_iff reg c =
    or_lem (is_secret_get_stage c) (any_has (c.name ∷ c.args) reg) (stage_iff c)
      (any_has_iff (c.name ∷ c.args) reg)

any_reveals_iff :
    (reg : Registry) (cs : List Command) → (any_reveals reg cs ≡ true) ↔ AnyReveals reg cs
unfolding any_reveals
any_reveals_iff reg [] = (λ e. absurd (cc e), λ h. absurd h)
any_reveals_iff reg (c ∷ cs) =
    or_lem (reveals reg c) (any_reveals reg cs) (reveals_iff reg c) (any_reveals_iff reg cs)

swap : {P Q : Type 0} → P ⊎ Q → Q ⊎ P
swap (inl p) = inr p
swap (inr q) = inl q

swapped_iff :
    (a b : Bool) {P Q : Type 0} → (a ≡ true) ↔ P → (b ≡ true) ↔ Q → ((a || b) ≡ true) ↔ (Q ⊎ P)
swapped_iff a b p q = (λ h. swap ((or_lem a b p q).0 h), λ h. (or_lem a b p q).1 (swap h))

map-Tagged : (reg : Registry) (cs : List Command) → Tagged reg cs (map (marked reg) cs)
map-Tagged reg [] = tt
map-Tagged reg (c ∷ cs) = (
  refl,
  swapped_iff (reveals reg c) c.tainted (reveals_iff reg c) (λ h. h, λ h. h),
  map-Tagged reg cs,
)

-- tagPipelineTaint changes marks only. A stage is tainted afterwards exactly if it was, if it is
-- `secret get`, or if its name or one of its arguments is a text that is not empty and was
-- registered; the pipeline exactly if it was, or if some stage is for one of the last two reasons.
pub tag_pipeline_taint-Tagged :
    (reg : Registry) (pl : Pipeline)
    → Tagged reg pl.commands (tag_pipeline_taint reg pl).commands
      × ((tag_pipeline_taint reg pl).background ≡ pl.background)
      × (((tag_pipeline_taint reg pl).tainted ≡ true)
          ↔ ((pl.tainted ≡ true) ⊎ AnyReveals reg pl.commands))
tag_pipeline_taint-Tagged reg pl = rw (tag_pipeline_taint_lem reg pl) (
  map-Tagged reg pl.commands,
  refl,
  swapped_iff (any_reveals reg pl.commands) pl.tainted (any_reveals_iff reg pl.commands)
      (λ h. h, λ h. h),
)
