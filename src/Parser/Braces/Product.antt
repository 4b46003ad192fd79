-- ===== src/Parser/Braces/Product.antt =====
-- Brace groups one after the other give the product of their parts.
use aish.Prelude.{
  ℕ, zero, suc, ◌≤◌, ◌<◌, ◌≡◌, refl, ap, ◌∙◌, true, false, none, some, List, [], ◌∷◌, ◌++◌, ◌==◌,
  map, length, length-append, Text, Rune, codes, contains, has_prefix, join, split_rune_at, All,
  arith,
}
use aish.Parser.Braces.{brace_parts, cut_at, with_tails, cross, expand_brace_from, expand_brace}

abbrev Without : Rune → Text → Type 0
Without r t = All (λ c. (c == r) ≡ false) t

-- The text before a group, and its parts, two at least.
pub record Group : Type 0 where
  pub lead : Text
  pub first : Text
  pub second : Text
  pub others : List Text

abbrev pub parts_of : Group → List Text
parts_of g = g.first ∷ g.second ∷ g.others

-- The text of groups, and of what follows the last.
unfoldable pub print_groups : List Group → Text → Text
unfolding join
print_groups [] tail = tail
print_groups (g ∷ gs) tail =
    g.lead ++ b'{' ∷ (join (parts_of g) (codes ",") ++ b'}' ∷ print_groups gs tail)

-- The parts in their order, each before every one of the rests.
unfoldable pub choices : Text → List Text → List Text → List Text
choices lead [] rests = []
choices lead (part ∷ parts) rests = map (λ r. lead ++ (part ++ r)) rests ++ choices lead parts rests

-- Every choice of a part of each group, the parts of the first group slowest.
unfoldable pub products : List Group → Text → List Text
unfolding choices
products [] tail = tail ∷ []
products (g ∷ gs) tail = choices g.lead (parts_of g) (products gs tail)

-- No part has a comma or a closing brace, the body is no range, and no lead has an opening brace.
pub record IsGroup (g : Group) : Type 0 where
  pub lead_ok : Without b'{' g.lead
  pub parts_ok : All (Without b',') (parts_of g)
  pub body_ok : Without b'}' (join (parts_of g) (codes ","))
  pub no_range : contains (join (parts_of g) (codes ",")) (codes "..") ≡ false

cut_at-append :
    (sep : Rune) (s rest : Text) → Without sep s → cut_at sep (s ++ sep ∷ rest) ≡ some (s, rest)
unfolding cut_at
cut_at-append sep [] rest h = ground arith
cut_at-append sep (c ∷ s) rest h = rw (cut_at-append sep s rest h.1, h.0) refl

cut_at-none : (sep : Rune) (s : Text) → Without sep s → cut_at sep s ≡ none
unfolding cut_at
cut_at-none sep [] h = refl
cut_at-none sep (c ∷ s) h = rw (cut_at-none sep s h.1, h.0) refl

split_last : (s : Text) → Without b',' s → split_rune_at b',' s ≡ s ∷ []
unfolding split_rune_at
split_last [] h = refl
split_last (c ∷ s) h = rw (split_last s h.1, h.0) refl

split_first :
    (s rest : Text)
    → Without b',' s
    → split_rune_at b',' (s ++ b',' ∷ rest) ≡ s ∷ split_rune_at b',' rest
unfolding split_rune_at
split_first [] rest h = refl
split_first (c ∷ s) rest h = rw (split_first s rest h.1, h.0) refl

split-join :
    (t : Text) (ts : List Text)
    → All (Without b',') (t ∷ ts)
    → split_rune_at b',' (join (t ∷ ts) (codes ",")) ≡ t ∷ ts
unfolding join
split-join t [] h = split_last t h.0
split-join t (u ∷ ts) h =
    split_first t (join (u ∷ ts) (codes ",")) h.0 ∙ ap (λ r. t ∷ r) (split-join u ts h.1)

has_comma : (s rest : Text) → contains (s ++ b',' ∷ rest) (codes ",") ≡ true
unfolding contains has_prefix
has_comma [] rest = refl
has_comma (c ∷ s) rest = ground (arith, has_comma s rest)

brace_parts-no_range :
    (c : Rune) (s : Text)
    → contains (c ∷ s) (codes "..") ≡ false
    → contains (c ∷ s) (codes ",") ≡ true
    → brace_parts (c ∷ s) ≡ split_rune_at b',' (c ∷ s)
unfolding brace_parts
brace_parts-no_range c s e h = rw (e, h) refl

brace_parts-join :
    (t u : Text) (ts : List Text)
    → All (Without b',') (t ∷ u ∷ ts)
    → contains (join (t ∷ u ∷ ts) (codes ",")) (codes "..") ≡ false
    → brace_parts (join (t ∷ u ∷ ts) (codes ",")) ≡ t ∷ u ∷ ts
unfolding join
brace_parts-join [] u ts h e =
    brace_parts-no_range b',' (join (u ∷ ts) (codes ",")) e
      (has_comma [] (join (u ∷ ts) (codes ",")))
    ∙ split-join [] (u ∷ ts) h
brace_parts-join (c ∷ t) u ts h e =
    brace_parts-no_range c (t ++ b',' ∷ join (u ∷ ts) (codes ",")) e
      (has_comma (c ∷ t) (join (u ∷ ts) (codes ",")))
    ∙ split-join (c ∷ t) (u ∷ ts) h

cross-choices :
    (prefix : Text) (parts tails : List Text)
    → cross prefix parts tails ≡ choices prefix parts tails
unfolding cross choices
cross-choices prefix [] tails = refl
cross-choices prefix (part ∷ parts) tails =
    ap (λ r. with_tails prefix tails part ++ r) (cross-choices prefix parts tails)

-- One group, and what the rest expands to.
one_group :
    (n : ℕ) (g : Group) (rest : Text)
    → IsGroup g
    → expand_brace_from (suc n) (g.lead ++ b'{' ∷ (join (parts_of g) (codes ",") ++ b'}' ∷ rest))
      ≡ cross g.lead (parts_of g) (expand_brace_from n rest)
unfolding expand_brace_from
one_group n g rest h =
    rw
      (
        cut_at-append b'{' g.lead (join (parts_of g) (codes ",") ++ b'}' ∷ rest) h.lead_ok,
        cut_at-append b'}' (join (parts_of g) (codes ",")) rest h.body_ok,
        brace_parts-join g.first g.second g.others h.parts_ok h.no_range,
        expand_brace_from,
      )
      refl

groups :
    (n : ℕ) (gs : List Group) (tail : Text)
    → All IsGroup gs
    → Without b'{' tail
    → length gs < n
    → expand_brace_from n (print_groups gs tail) ≡ products gs tail
unfolding expand_brace_from print_groups products
groups zero gs tail h t lt = absurd (omega arith)
groups (suc n) [] tail h t lt = rw (cut_at-none b'{' tail t, expand_brace_from) refl
groups (suc n) (g ∷ gs) tail h t lt =
    one_group n g (print_groups gs tail) h.0
    ∙ ap (cross g.lead (parts_of g)) (groups n gs tail h.1 t (omega (arith, lt)))
    ∙ cross-choices g.lead (parts_of g) (products gs tail)

print_groups-length : (gs : List Group) (tail : Text) → length gs ≤ length (print_groups gs tail)
unfolding print_groups
print_groups-length [] tail = omega arith
print_groups-length (g ∷ gs) tail = omega (
  arith,
  length-append g.lead (b'{' ∷ (join (parts_of g) (codes ",") ++ b'}' ∷ print_groups gs tail)),
  length-append (join (parts_of g) (codes ",")) (b'}' ∷ print_groups gs tail),
  print_groups-length gs tail,
)

-- A word of brace groups, each after a text without an opening brace and with two parts or more
-- that have no comma, no closing brace and no two dots in a row, expands to all the products of
-- parts, the parts of the first group slowest.
pub expand_brace-products :
    (gs : List Group) (tail : Text)
    → All IsGroup gs
    → Without b'{' tail
    → expand_brace (print_groups gs tail) ≡ products gs tail
unfolding expand_brace
expand_brace-products gs tail h t =
    groups (suc (length (print_groups gs tail))) gs tail h t
      (omega (arith, print_groups-length gs tail))
