-- ===== src/Parser/Tests.antt =====
-- The theorems about the parser, applied to concrete lines.
use aish.Prelude.{
  ℕ, suc, ◌≡◌, refl, ◌⊎◌, inr, some, List, [], ◌∷◌, codes, true, false, Text, contains, join,
}
use aish.Parser.{Command, ok, command, parse}
use aish.Parser.Print.{print, parse-print}
use aish.Parser.Braces.{expand_brace}
use aish.Parser.Braces.Product.{Group, print_groups, products, expand_brace-products}
use aish.Parser.Substitution.{expand_line}
use aish.Parser.Substitution.Pieces.{
  Piece, plain, quoted, escaped, command_of, print_pieces, result, expand_line-meaning,
}
use aish.Parser.Sound.Accepts.{Parsed, parse_lem}

abbrev say : Command
say = command (codes "echo") (codes "it's a | b" ∷ [] ∷ [])

abbrev count : Command
count = command (codes "wc") (codes "-c" ∷ [])

parse-print_example :
    parse (print say (count ∷ []) true)
    ≡ ok (record { commands = say ∷ count ∷ []; background = true; tainted = false })
parse-print_example = parse-print say (count ∷ []) true (refl, (refl, tt))

parse_lem_example : Parsed (codes "ls 'a b' | wc &") (parse (codes "ls 'a b' | wc &"))
parse_lem_example = parse_lem (codes "ls 'a b' | wc &")

abbrev letters : Group
letters = record { lead = codes "x"; first = codes "a"; second = codes "b"; others = [] }

abbrev more_letters : Group
more_letters = record { lead = codes "-"; first = codes "c"; second = []; others = codes "de" ∷ [] }

expand_brace-products_example :
    expand_brace (print_groups (letters ∷ more_letters ∷ []) (codes ".go"))
    ≡ products (letters ∷ more_letters ∷ []) (codes ".go")
unfolding contains join
expand_brace-products_example =
    expand_brace-products (letters ∷ more_letters ∷ []) (codes ".go")
      (
        record {
          lead_ok = (refl, tt);
          parts_ok = ((refl, tt), ((refl, tt), tt));
          body_ok = (refl, (refl, (refl, tt)));
          no_range = refl;
        },
        (
          record {
            lead_ok = (refl, tt);
            parts_ok = ((refl, tt), (tt, ((refl, (refl, tt)), tt)));
            body_ok = (refl, (refl, (refl, (refl, (refl, tt)))));
            no_range = refl;
          },
          tt,
        ),
      )
      (refl, (refl, (refl, tt)))

range_down :
    expand_brace (codes "f{2..-1}") ≡ codes "f2" ∷ codes "f1" ∷ codes "f0" ∷ codes "f-1" ∷ []
unfolding expand_brace
range_down = refl

range_of_one : expand_brace (codes "{1..1}") ≡ codes "1" ∷ []
unfolding expand_brace
range_of_one = refl

-- Every command prints `now` and a newline; the world counts them.
abbrev now : Text → ℕ → (ℕ ⊎ Text) × ℕ
now t w = (inr (codes "now\n"), suc w)

abbrev dated : List Piece
dated =
    plain b'"' ∷ command_of (codes "date") ∷ plain b'"' ∷ quoted (codes "$(x)") ∷ escaped b'$' ∷ []

expand_line-meaning_example : expand_line (some now) (print_pieces dated) 0 ≡ result now dated 0
expand_line-meaning_example = expand_line-meaning now dated 0 (
  refl,
  ((refl, (refl, (refl, (refl, tt)))), (refl, (refl, (refl, (refl, (refl, (refl, tt)))), tt))),
)
