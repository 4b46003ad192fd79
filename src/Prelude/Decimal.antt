-- ===== src/Prelude/Decimal.antt =====
-- Go's strconv.Atoi and strconv.Itoa, and the integers between two bounds.
use Prim.Native.Nat.{ℕ, zero, suc, ◌+◌, ◌-◌, ◌*◌, ◌/◌, ◌%◌, ◌^◌}
use mathlib.Core.Bool.{Bool, ◌&&◌}
use mathlib.Core.List.{List, [], ◌∷◌, ◌++◌}
use mathlib.Core.Option.{Option, none, some}
use aish.Prelude.Tests.{leb, ltb, ◌==◌, if◌then◌else◌}
use aish.Prelude.Strings.{Rune, Text}
use aish.Prelude.Int.{ℤ, pos, negsuc}

is_digit : Rune → Bool
is_digit c = leb b'0' c && leb c b'9'

-- The number that the digits write, after those that are read already.
digits : ℕ → Text → Option ℕ
unfolding is_digit
digits acc [] = some acc
digits acc (c ∷ s) =
    let rest = digits (acc * 10 + (c - b'0')) s in if is_digit c then rest else none

number : Text → Option ℕ
unfolding digits
number [] = none
number (c ∷ s) = digits 0 (c ∷ s)

-- A number that fits 64 bits, with its sign.
positive : Option ℕ → Option ℤ
positive none = none
positive (some n) = if ltb n (2 ^ 63) then some (pos n) else none

negative : Option ℕ → Option ℤ
negative none = none
negative (some zero) = some (pos 0)
negative (some (suc n)) = if ltb n (2 ^ 63) then some (negsuc n) else none

-- strconv.Atoi
unfoldable pub atoi : Text → Option ℤ
unfolding number positive negative
atoi [] = none
atoi (c ∷ s) =
    if c == b'-'
    then negative (number s)
    else if c == b'+'
    then positive (number s)
    else positive (number (c ∷ s))

-- The digits of a number below 10 ^ 20.
unfoldable pub decimal : ℕ → ℕ → Text
decimal zero n = []
decimal (suc fuel) n =
    let rest = decimal fuel (n / 10) in
    if ltb n 10 then (b'0' + n) ∷ [] else rest ++ (b'0' + n % 10) ∷ []

-- strconv.Itoa, of 64 bits
unfoldable pub itoa : ℤ → Text
unfolding decimal
itoa (pos n) = decimal 20 n
itoa (negsuc n) = b'-' ∷ decimal 20 (suc n)

succ : ℤ → ℤ
succ (pos n) = pos (suc n)
succ (negsuc zero) = pos 0
succ (negsuc (suc n)) = negsuc n

pred : ℤ → ℤ
pred (pos zero) = negsuc 0
pred (pos (suc n)) = pos n
pred (negsuc n) = negsuc (suc n)

-- `n` integers, from one on up and on down.
up : ℕ → ℤ → List ℤ
unfolding succ
up zero i = []
up (suc n) i = i ∷ up n (succ i)

down : ℕ → ℤ → List ℤ
unfolding pred
down zero i = []
down (suc n) i = i ∷ down n (pred i)

-- `hi - lo`, where it is not negative
steps : ℤ → ℤ → Option ℕ
steps (pos a) (pos b) = if leb a b then some (b - a) else none
steps (pos a) (negsuc b) = none
steps (negsuc a) (pos b) = some (suc (a + b))
steps (negsuc a) (negsuc b) = if leb b a then some (a - b) else none

-- The integers from one bound to the other, both among them, upwards or downwards.
unfoldable pub range : ℤ → ℤ → List ℤ
unfolding up down steps
range lo hi = elim (steps lo hi) [
  | some n ↦ up (suc n) lo
  | none ↦ elim (steps hi lo) [ some n ↦ down (suc n) lo | none ↦ [] ]
]
