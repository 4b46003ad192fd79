-- ===== src/Env/Tests.antt =====
-- The theorems about the environment, applied to a concrete table.
use aish.Prelude.{List, [], ◌∷◌, refl, ◌≡◌, arith, Text, codes}
use aish.Env.{Env, from_slice}
use aish.Env.{is_identifier, all_cont}
use aish.Env.Expand.{expand}
use aish.Env.Expand.Pieces.{
  Piece, plain, verbatim, double_quote, bare, braces, last_status, print, meaning, expand_pieces,
}
use aish.Env.Table.{IsName, IsValid, from_slice-IsValid}

abbrev home : Text
home = codes "HOME"

abbrev path : Text
path = codes "PATH"

abbrev table : Env
table = from_slice (codes "HOME=/root" ∷ codes "bad" ∷ codes "PATH=/bin" ∷ [])

home-IsName : IsName home
home-IsName = (omega arith, (omega arith, (omega arith, (omega arith, tt))))

path-IsName : IsName path
path-IsName = (omega arith, (omega arith, (omega arith, (omega arith, tt))))

table-IsValid : IsValid table
table-IsValid = from_slice-IsValid (codes "HOME=/root" ∷ codes "bad" ∷ codes "PATH=/bin" ∷ [])

-- echo '$x' "$HOME/${PATH}" $?
abbrev line : List Piece
line =
    plain b'e'
    ∷ plain b' '
    ∷ verbatim (codes "$x")
    ∷ double_quote
    ∷ bare b'H' (codes "OME")
    ∷ braces path
    ∷ double_quote
    ∷ last_status
    ∷ bare b'X' []
    ∷ []

expand_pieces_example : expand table (codes "3") (print line) ≡ meaning table (codes "3") line
unfolding is_identifier all_cont print
expand_pieces_example =
    expand_pieces table (codes "3") line
      (refl, (refl, (refl, (refl, (refl, tt)), (refl, refl, (refl, (refl, tt, tt))))))
