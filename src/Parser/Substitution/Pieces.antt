-- ===== src/Parser/Substitution/Pieces.antt =====
-- Command substitution on a text of pieces.
use aish.Prelude.{
  ℕ, suc, ◌≡◌, ◌≢◌, refl, ap, sym, ◌∙◌, subst, Bool, true, false, ◌||◌, ◌⊎◌, inl, inr, some, List,
  [], ◌∷◌, ◌++◌, ◌==◌, length, take-length, Text, Rune, codes, contains, has_prefix, cut_prefix,
  All, arith, append_assoc, Bool-cases, not, if◌then◌else◌, drop_while, trim_right_while, reverse,
  reverse-cons, reverse-append, reverse-reverse, List-cases,
}
use aish.Parser.Substitution.{
  other, failed, is_newline, place, matching_paren, Outcome, write, and_expanded, capture, sub_loop,
  expand_cmd_sub, expand_line,
}

-- A rune, a text in single quotes, a backslash and the rune after it, and `$(COMMAND)`.
pub data Piece : Type 0 where
  plain : Rune → Piece
  quoted : Text → Piece
  escaped : Rune → Piece
  command_of : Text → Piece

unfoldable pub print_pieces : List Piece → Text
print_pieces [] = []
print_pieces (plain r ∷ ps) = r ∷ print_pieces ps
print_pieces (quoted t ∷ ps) = b'\'' ∷ (t ++ b'\'' ∷ print_pieces ps)
print_pieces (escaped r ∷ ps) = b'\\' ∷ r ∷ print_pieces ps
print_pieces (command_of t ∷ ps) = b'$' ∷ b'(' ∷ (t ++ b')' ∷ print_pieces ps)

abbrev pub is_special : Rune → Bool
is_special r = (r == b'\'') || ((r == b'\\') || (r == b'$'))

abbrev pub is_bracket : Rune → Bool
is_bracket r = ((r == b'\'') || (r == b'"')) || ((r == b'(') || (r == b')'))

-- A plain rune is not special; a text in quotes has no single quote, a command no quotes and
-- parentheses.
abbrev pub IsPiece : Piece → Type 0
IsPiece (plain r) = is_special r ≡ false
IsPiece (quoted t) = All (λ r. (r == b'\'') ≡ false) t
IsPiece (escaped r) = Unit {0}
IsPiece (command_of t) = All (λ r. is_bracket r ≡ false) t

module _ {W E : Type 0} (run : Text → W → (E ⊎ Text) × W) where
  -- Commands are replaced by what they print_pieces, in their order, up to the first that fails.
  unfoldable pub meaning : List Piece → W → Outcome W E
  unfolding write capture
  meaning [] w = (inr [], w)
  meaning (plain r ∷ ps) w = write (r ∷ []) (meaning ps w)
  meaning (quoted t ∷ ps) w = write (b'\'' ∷ (t ++ b'\'' ∷ [])) (meaning ps w)
  meaning (escaped r ∷ ps) w = write (b'\\' ∷ r ∷ []) (meaning ps w)
  meaning (command_of t ∷ ps) w = capture run t (meaning ps) (run t w)

-- Single quotes stand outside of double quotes.
abbrev flip : Bool → Rune → Bool
flip in_double r = if r == b'"' then not in_double else in_double

abbrev pub Readable : Bool → List Piece → Type 0
Readable in_double [] = Unit {0}
Readable in_double (plain r ∷ ps) = (is_special r ≡ false) × Readable (flip in_double r) ps
Readable in_double (quoted t ∷ ps) =
    (in_double ≡ false) × All (λ r. (r == b'\'') ≡ false) t × Readable in_double ps
Readable in_double (escaped r ∷ ps) = Readable in_double ps
Readable in_double (command_of t ∷ ps) = All (λ r. is_bracket r ≡ false) t × Readable in_double ps

-- A text without the newlines at its end.
unfoldable pub chomp : Text → Text
chomp [] = []
chomp (c ∷ s) = elim (chomp s) [ [] ↦ if c == b'\n' then [] else c ∷ [] | d ∷ t ↦ c ∷ d ∷ t ]

module _ {W E : Type 0} where
  unfoldable pub put : Text → Outcome W E → Outcome W E
  put t (inl e, w) = (inl e, w)
  put t (inr rest, w) = (inr (t ++ rest), w)

module _ {W E : Type 0} (run : Text → W → (E ⊎ Text) × W) where
  -- What the pieces stand for, and the world after their commands, or the first error.
  unfoldable pub result : List Piece → W → Outcome W E
  unfolding put chomp
  result [] w = (inr [], w)
  result (plain r ∷ ps) w = put (r ∷ []) (result ps w)
  result (quoted t ∷ ps) w = put (b'\'' ∷ (t ++ b'\'' ∷ [])) (result ps w)
  result (escaped r ∷ ps) w = put (b'\\' ∷ r ∷ []) (result ps w)
  result (command_of t ∷ ps) w = elim (run t w).0 [
    | inl e ↦ (inl (failed t e), (run t w).1)
    | inr out ↦ put (chomp out) (result ps (run t w).1)
  ]

drop_while-last :
    (s : Text) (c : Rune)
    → drop_while is_newline (s ++ c ∷ []) ≡ (elim (drop_while is_newline s) [
      | [] ↦ if c == b'\n' then [] else c ∷ []
      | d ∷ t ↦ d ∷ (t ++ c ∷ [])
    ])
unfolding drop_while
drop_while-last [] c = refl
drop_while-last (d ∷ s) c = elim (Bool-cases (d == b'\n')) [
  | inl e ↦ rw (e, drop_while) (drop_while-last s c)
  | inr e ↦ rw (e, drop_while) refl
]

reverse-cons_ne : (d : Rune) (t : Text) → reverse (d ∷ t) ≢ []
reverse-cons_ne d t h = absurd (cc (sym (reverse-reverse (d ∷ t)) ∙ ap reverse h))

-- A rune before what is kept of a text.
before_kept : Rune → Text → Text
before_kept c [] = if c == b'\n' then [] else c ∷ []
before_kept c (d ∷ t) = c ∷ d ∷ t

before_more : (c : Rune) (s : Text) → s ≢ [] → before_kept c s ≡ c ∷ s
unfolding before_kept
before_more c [] h = absurd (h refl)
before_more c (d ∷ t) h = refl

reverse_kept :
    (c : Rune) (x : Text)
    → reverse (elim x as (λ y. Text) [
      | [] ↦ if c == b'\n' then [] else c ∷ []
      | d ∷ t ↦ d ∷ (t ++ c ∷ [])
    ])
      ≡ before_kept c (reverse x)
unfolding before_kept
reverse_kept c [] = elim (Bool-cases (c == b'\n')) [ inl e ↦ rw e refl | inr e ↦ rw e refl ]
reverse_kept c (d ∷ t) =
    reverse-append (d ∷ t) (c ∷ []) ∙ sym (before_more c (reverse (d ∷ t)) (reverse-cons_ne d t))

chomp_step : (c : Rune) (s : Text) → chomp (c ∷ s) ≡ before_kept c (chomp s)
unfolding chomp before_kept
chomp_step c s = elim (List-cases (chomp s)) [
  | inl e ↦ rw (e, chomp, before_kept) refl
  | inr (d, t, e) ↦ rw (e, chomp, before_kept) refl
]

trim-chomp : (s : Text) → trim_right_while is_newline s ≡ chomp s
unfolding trim_right_while
trim-chomp [] = unfold drop_while chomp in refl
trim-chomp (c ∷ s) =
    ap (λ t. reverse (drop_while is_newline t)) (reverse-cons c s)
    ∙ ap reverse (drop_while-last (reverse s) c)
    ∙ reverse_kept c (drop_while is_newline (reverse s))
    ∙ ap (before_kept c) (trim-chomp s)
    ∙ sym (chomp_step c s)

module _ {W E : Type 0} where
  write-put : (t : Text) (o : Outcome W E) → write t o ≡ put t o
  unfolding write put
  write-put t (inl e, w) = refl
  write-put t (inr r, w) = refl

  write-write : (s t : Text) (o : Outcome W E) → write s (write t o) ≡ write (s ++ t) o
  unfolding write
  write-write s t (inl e, w) = refl
  write-write s t (inr r, w) = rw (append_assoc s t r) refl

  write-inr :
      (s : Text) (o : Outcome W E) (t : Text) (w : W)
      → o ≡ (inr t, w)
      → write s o ≡ (inr (s ++ t), w)
  unfolding write
  write-inr s o t w h = rw (h, write) refl

place_plain : (r : Rune) (rest : Text) → is_special r ≡ false → place false r rest ≡ other
unfolding place
place_plain r rest h = ground (arith, h)

matching_paren-simple :
    (t rest : Text)
    → All (λ r. is_bracket r ≡ false) t
    → matching_paren 1 false false (t ++ b')' ∷ rest) ≡ some (length t)
unfolding matching_paren
matching_paren-simple [] rest h = refl
matching_paren-simple (c ∷ t) rest h = ground (arith, h.0, matching_paren-simple t rest h.1)

pub no_substitution :
    (t : Text) → All (λ r. is_bracket r ≡ false) t → contains t (codes "$(") ≡ false
unfolding contains has_prefix cut_prefix
no_substitution [] h = refl
no_substitution (c ∷ []) h = ground (arith, h)
no_substitution (c ∷ d ∷ t) h = ground (arith, h.1.0, no_substitution (d ∷ t) h.1)

has_command : (s : Text) → contains (b'$' ∷ b'(' ∷ s) (codes "$(") ≡ true
unfolding contains has_prefix cut_prefix
has_command s = refl

contains-append : (s t sub : Text) → contains (s ++ t) sub ≡ false → contains t sub ≡ false
unfolding contains
contains-append [] t sub h = h
contains-append (c ∷ s) t sub h = contains-append s t sub (ground (arith, h))

module _ {W E : Type 0} (run : Text → W → (E ⊎ Text) × W) where
  capture-cong :
      (t : Text) (f g : W → Outcome W E) (r : (E ⊎ Text) × W)
      → ((w : W) → f w ≡ g w)
      → capture run t f r ≡ capture run t g r
  unfolding capture
  capture-cong t f g (inl e, w) h = refl
  capture-cong t f g (inr out, w) h = ap (write _) (h w)

  module _ (inner : Text → W → Outcome W E) where
    skip_past :
        (t : Text) (c : Rune) (rest : Text) (w : W)
        → sub_loop run inner (suc (length t)) false (t ++ c ∷ rest) w
          ≡ sub_loop run inner 0 false rest w
    unfolding sub_loop
    skip_past [] c rest w = refl
    skip_past (d ∷ t) c rest w = skip_past t c rest w

    in_quotes :
        (t rest : Text) (w : W)
        → All (λ r. (r == b'\'') ≡ false) t
        → sub_loop run inner 0 true (t ++ b'\'' ∷ rest) w
          ≡ write (t ++ b'\'' ∷ []) (sub_loop run inner 0 false rest w)
    unfolding sub_loop place
    in_quotes [] rest w h = refl
    in_quotes (c ∷ t) rest w h =
        rw (h.0, place, sub_loop)
          (ap (write (c ∷ [])) (in_quotes t rest w h.1) ∙ write-write (c ∷ []) (t ++ b'\'' ∷ []) _)

    -- Without another single quote nothing is substituted.
    pub quote_open :
        (t : Text) (w : W)
        → All (λ r. (r == b'\'') ≡ false) t
        → sub_loop run inner 0 true t w ≡ (inr t, w)
    unfolding sub_loop place
    quote_open [] w h = refl
    quote_open (c ∷ t) w h =
        rw (h.0, place, sub_loop) (write-inr (c ∷ []) _ t w (quote_open t w h.1))

    one_command :
        (t rest : Text) (w : W)
        → All (λ r. is_bracket r ≡ false) t
        → inner t w ≡ (inr t, w)
        → sub_loop run inner 0 false (b'$' ∷ b'(' ∷ (t ++ b')' ∷ rest)) w
          ≡ capture run t (sub_loop run inner 0 false rest) (run t w)
    unfolding sub_loop place has_prefix cut_prefix and_expanded
    one_command t rest w h e =
        rw
          (
            matching_paren-simple t rest h,
            take-length t (b')' ∷ rest),
            e,
            and_expanded,
            sub_loop,
            place,
          )
          (capture-cong t _ (sub_loop run inner 0 false rest) (run t w) (skip_past t b')' rest))

    one_plain :
        (r : Rune) (rest : Text) (w : W)
        → is_special r ≡ false
        → sub_loop run inner 0 false (r ∷ rest) w
          ≡ write (r ∷ []) (sub_loop run inner 0 false rest w)
    unfolding sub_loop
    one_plain r rest w h = rw (place_plain r rest h, sub_loop) refl

    -- The loop on pieces, where the commands are left as they are one level deeper.
    loop-meaning :
        (ps : List Piece) (w : W)
        → All IsPiece ps
        → ((t : Text) (v : W) → All (λ r. is_bracket r ≡ false) t → inner t v ≡ (inr t, v))
        → sub_loop run inner 0 false (print_pieces ps) w ≡ meaning run ps w
    unfolding sub_loop place print_pieces meaning has_prefix cut_prefix
    loop-meaning [] w h k = refl
    loop-meaning (plain r ∷ ps) w h k =
        one_plain r (print_pieces ps) w h.0 ∙ ap (write (r ∷ [])) (loop-meaning ps w h.1 k)
    loop-meaning (quoted t ∷ ps) w h k =
        ap (write (b'\'' ∷ [])) (in_quotes t (print_pieces ps) w h.0)
        ∙ write-write (b'\'' ∷ []) (t ++ b'\'' ∷ [])
            (sub_loop run inner 0 false (print_pieces ps) w)
        ∙ ap (write (b'\'' ∷ (t ++ b'\'' ∷ []))) (loop-meaning ps w h.1 k)
    loop-meaning (escaped r ∷ ps) w h k = ap (write (b'\\' ∷ r ∷ [])) (loop-meaning ps w h.1 k)
    loop-meaning (command_of t ∷ ps) w h k =
        one_command t (print_pieces ps) w h.0 (k t w h.0)
        ∙ capture-cong t (sub_loop run inner 0 false (print_pieces ps)) (meaning run ps) (run t w)
            (λ v. loop-meaning ps v h.1 k)

  -- Where no command is substituted the text stays as it is.
  meaning-print_pieces :
      (ps : List Piece) (w : W)
      → contains (print_pieces ps) (codes "$(") ≡ false
      → meaning run ps w ≡ (inr (print_pieces ps), w)
  unfolding meaning print_pieces
  meaning-print_pieces [] w h = refl
  meaning-print_pieces (plain r ∷ ps) w h =
      write-inr (r ∷ []) _ (print_pieces ps) w
        (meaning-print_pieces ps w (contains-append (r ∷ []) (print_pieces ps) _ h))
  meaning-print_pieces (quoted t ∷ ps) w h =
      write-inr (b'\'' ∷ (t ++ b'\'' ∷ [])) _ (print_pieces ps) w (
        meaning-print_pieces ps w (
          contains-append (b'\'' ∷ (t ++ b'\'' ∷ [])) (print_pieces ps) _ (
            subst (λ s. contains (b'\'' ∷ s) (codes "$(") ≡ false)
              (sym (append_assoc t (b'\'' ∷ []) (print_pieces ps))) h)))
      ∙ ap (λ s. (inr (b'\'' ∷ s), w)) (append_assoc t (b'\'' ∷ []) (print_pieces ps))
  meaning-print_pieces (escaped r ∷ ps) w h =
      write-inr (b'\\' ∷ r ∷ []) _ (print_pieces ps) w
        (meaning-print_pieces ps w (contains-append (b'\\' ∷ r ∷ []) (print_pieces ps) _ h))
  meaning-print_pieces (command_of t ∷ ps) w h =
      absurd (ground (arith, h, has_command (t ++ b')' ∷ print_pieces ps)))

  inner_kept :
      (n : ℕ) (t : Text) (w : W)
      → All (λ r. is_bracket r ≡ false) t
      → expand_cmd_sub run (suc n) t w ≡ (inr t, w)
  unfolding expand_cmd_sub
  inner_kept n t w h = rw (no_substitution t h) refl

  one_level :
      (n : ℕ) (ps : List Piece) (w : W)
      → All IsPiece ps
      → expand_cmd_sub run (suc (suc n)) (print_pieces ps) w ≡ meaning run ps w
  unfolding expand_cmd_sub
  one_level n ps w h = elim (Bool-cases (contains (print_pieces ps) (codes "$("))) [
    | inl e ↦
        rw (e, expand_cmd_sub)
          (loop-meaning (expand_cmd_sub run (suc n)) ps w h (λ t v simple. inner_kept n t v simple))
    | inr e ↦ rw (e, expand_cmd_sub) (sym (meaning-print_pieces ps w e))
  ]

  pub expand_line-pieces :
      (ps : List Piece) (w : W)
      → All IsPiece ps
      → expand_line (some run) (print_pieces ps) w ≡ meaning run ps w
  unfolding expand_line
  expand_line-pieces ps w h = one_level 15 ps w h

  capture_lem :
      (t : Text) (f g : W → Outcome W E) (r : (E ⊎ Text) × W)
      → ((w : W) → f w ≡ g w)
      → capture run t f r
        ≡ (elim r.0 [ inl e ↦ (inl (failed t e), r.1) | inr out ↦ put (chomp out) (g r.1) ])
  unfolding capture
  capture_lem t f g (inl e, w) h = refl
  capture_lem t f g (inr out, w) h = rw (trim-chomp out, h w) (write-put (chomp out) (g w))

  meaning-result : (ps : List Piece) (w : W) → meaning run ps w ≡ result run ps w
  unfolding meaning result
  meaning-result [] w = refl
  meaning-result (plain r ∷ ps) w = rw (meaning-result ps w) (write-put (r ∷ []) (result run ps w))
  meaning-result (quoted t ∷ ps) w =
      rw (meaning-result ps w) (write-put (b'\'' ∷ (t ++ b'\'' ∷ [])) (result run ps w))
  meaning-result (escaped r ∷ ps) w =
      rw (meaning-result ps w) (write-put (b'\\' ∷ r ∷ []) (result run ps w))
  meaning-result (command_of t ∷ ps) w =
      capture_lem t (meaning run ps) (result run ps) (run t w) (meaning-result ps)

  Readable-IsPiece : (d : Bool) (ps : List Piece) → Readable d ps → All IsPiece ps
  Readable-IsPiece d [] h = tt
  Readable-IsPiece d (plain r ∷ ps) h = (h.0, Readable-IsPiece (flip d r) ps h.1)
  Readable-IsPiece d (quoted t ∷ ps) h = (h.1, Readable-IsPiece d ps h.2)
  Readable-IsPiece d (escaped r ∷ ps) h = (tt, Readable-IsPiece d ps h)
  Readable-IsPiece d (command_of t ∷ ps) h = (h.0, Readable-IsPiece d ps h.1)

  -- On a line of plain runes, double quotes among them, texts in single quotes that stand outside of
  -- double quotes, escaped runes, and commands without quotes and parentheses, ExpandLine replaces
  -- each command outside of single quotes by what it prints, less the newlines at the end, and keeps
  -- all else. The commands run in the order of the line, and none after one that fails, whose error
  -- is returned.
  pub expand_line-meaning :
      (ps : List Piece) (w : W)
      → Readable false ps
      → expand_line (some run) (print_pieces ps) w ≡ result run ps w
  expand_line-meaning ps w h =
      expand_line-pieces ps w (Readable-IsPiece false ps h) ∙ meaning-result ps w

  after_plain :
      (inner : Text → W → Outcome W E) (xs ys : Text) (w : W)
      → All (λ r. is_special r ≡ false) xs
      → All (λ r. (r == b'\'') ≡ false) ys
      → sub_loop run inner 0 false (xs ++ b'\'' ∷ ys) w ≡ (inr (xs ++ b'\'' ∷ ys), w)
  unfolding sub_loop place
  after_plain inner [] ys w h k =
      write-inr (b'\'' ∷ []) (sub_loop run inner 0 true ys w) ys w (quote_open inner ys w k)
  after_plain inner (x ∷ xs) ys w h k =
      one_plain inner x (xs ++ b'\'' ∷ ys) w h.0
      ∙ write-inr (x ∷ []) _ (xs ++ b'\'' ∷ ys) w (after_plain inner xs ys w h.1 k)

  -- A line with one single quote, before which no dollar sign and no backslash stands, is returned
  -- as it is and none of its commands runs, whether or not the quote stands in double quotes.
  pub apostrophe_stops :
      (xs ys : Text) (w : W)
      → All (λ r. is_special r ≡ false) xs
      → All (λ r. (r == b'\'') ≡ false) ys
      → expand_line (some run) (xs ++ b'\'' ∷ ys) w ≡ (inr (xs ++ b'\'' ∷ ys), w)
  unfolding expand_line expand_cmd_sub
  apostrophe_stops xs ys w h k = elim (Bool-cases (contains (xs ++ b'\'' ∷ ys) (codes "$("))) [
    | inl e ↦ rw (e, expand_cmd_sub) (after_plain (expand_cmd_sub run 16) xs ys w h k)
    | inr e ↦ rw (e, expand_cmd_sub) refl
  ]
