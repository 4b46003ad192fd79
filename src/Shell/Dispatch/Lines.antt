-- ===== src/Shell/Dispatch/Lines.antt =====
-- Whether the highlighter of a line and dispatch of shell/internal/shell/shell.go agree on what is a
-- builtin.
use aish.Prelude.{
  ◌≡◌, refl, ◌∙◌, Bool, true, false, not, ◌&&◌, ◌||◌, Option, none, some, List, [], ◌∷◌, ◌++◌,
  arith, All, Bool-cases, inl, inr, Text, codes, text_eq, text_eq_iff, if◌then◌else◌,
}
use aish.Term.Highlight.{Tier, ai_intent, known_binary, builtin}
use aish.Shell.{is_blank}
use aish.Shell.State.{Shell}
use aish.Shell.Dispatch.{Entry, Others, entries, match_entries, tier_names, named, resolve_tier}
use aish.Shell.Dispatch.Routes.{Word, Tail, is_empty, word_entry, match_entries-Word, text_eq_comm}

abbrev pub is_some : {A : Type 0} → Option A → Bool
is_some none = false
is_some (some a) = true

abbrev pub is_builtin : Tier → Bool
is_builtin builtin = true
is_builtin known_binary = false
is_builtin ai_intent = false

word_test : Text → Bool
word_test [] = true
word_test (c ∷ w) = not (is_blank c) && word_test w

names_test : List Entry → Bool
names_test [] = true
names_test (e ∷ es) = word_test e.name && names_test es

word_test-Word : (w : Text) → word_test w ≡ true → Word w
unfolding word_test
word_test-Word [] h = tt
word_test-Word (c ∷ w) h = (ground (arith, h), word_test-Word w (ground (arith, h)))

names_test-Word : (es : List Entry) → names_test es ≡ true → All (λ (e : Entry). Word e.name) es
unfolding names_test
names_test-Word [] h = tt
names_test-Word (e ∷ es) h =
    (word_test-Word e.name (ground (arith, h)), names_test-Word es (ground (arith, h)))

-- The names that are for a builtin before a blank, or alone.
names_before : Bool → List Entry → List Text
names_before tail [] = []
names_before tail (e ∷ es) =
    let rest = names_before tail es in if e.alone || tail then e.name ∷ rest else rest

module _ {W : Type 0} (others : Others W) where
  word_entry-names :
      (es : List Entry) (w t : Text)
      → is_some (word_entry es w t) ≡ named others (names_before (not (is_empty t)) es) w
  unfolding word_entry names_before named
  word_entry-names [] w t = refl
  word_entry-names (e ∷ es) w t = ground (arith, word_entry-names es w t, text_eq_comm w e.name)

  all_named : List Text → List Text → Bool
  unfolding named
  all_named names [] = true
  all_named names (n ∷ ns) = named others names n && all_named names ns

  named-all :
      (names ns : List Text) (w : Text)
      → all_named names ns ≡ true
      → named others ns w ≡ true
      → named others names w ≡ true
  unfolding named all_named
  named-all names [] w h k = cc
  named-all names (n ∷ ns) w h k = elim (Bool-cases (text_eq w n)) [
    | inl same ↦ rw ((text_eq_iff w n).0 same) (ground (arith, h))
    | inr other ↦ named-all names ns w (ground (arith, h)) (ground (arith, k, other))
  ]

  same_names :
      (names ns : List Text) (w : Text)
      → all_named names ns ≡ true
      → all_named ns names ≡ true
      → named others names w ≡ named others ns w
  same_names names ns w h k = ground (arith, named-all names ns w h, named-all ns names w k)

  abbrev pub never_alone : List Text
  never_alone = codes "export" ∷ codes "restore" ∷ []

  tier_names-before :
      (w : Text) → named others (tier_names others) w ≡ named others (names_before true entries) w
  unfolding named all_named names_before
  tier_names-before w = same_names (tier_names others) (names_before true entries) w refl refl

  named-append :
      (ns ms : List Text) (w : Text)
      → named others (ns ++ ms) w ≡ named others ns w || named others ms w
  unfolding named
  named-append [] ms w = refl
  named-append (n ∷ ns) ms w = ground (arith, named-append ns ms w)

  tier_names-alone :
      (w : Text)
      → named others (tier_names others) w
        ≡ named others (names_before false entries) w || named others never_alone w
  unfolding named all_named names_before
  tier_names-alone w =
      same_names (tier_names others) (names_before false entries ++ never_alone) w refl refl
      ∙ named-append (names_before false entries) never_alone w

  is_builtin-named :
      (w : Text) (s : Shell W)
      → is_builtin (resolve_tier others w s) ≡ named others (tier_names others) w
  unfolding resolve_tier
  is_builtin-named w s = ground arith

  agrees :
      (w t : Text)
      → named others (tier_names others) w
        ≡ is_some (word_entry entries w t) || (is_empty t && named others never_alone w)
  agrees w [] = rw (word_entry-names entries w []) (tier_names-alone w)
  agrees w (d ∷ t) = rw (word_entry-names entries w (d ∷ t)) (tier_names-before w ∙ ground arith)

  -- The highlighter and dispatch agree on a line that begins with a word, with nothing or a blank
  -- after it: ResolveTier calls the word a builtin exactly if dispatch gives the line to a builtin,
  -- but for the lines `export` and `restore` with nothing after the word, which are highlighted as
  -- builtins and run as commands.
  pub resolve_tier-match_entries :
      (w t : Text) (s : Shell W)
      → Word w
      → Tail t
      → is_builtin (resolve_tier others w s)
        ≡ is_some (match_entries entries (w ++ t)) || (is_empty t && named others never_alone w)
  unfolding names_test word_test
  resolve_tier-match_entries w t s h k =
      rw (match_entries-Word entries w t (names_test-Word entries refl) h k)
        (is_builtin-named w s ∙ agrees w t)
