-- ===== src/Term/Buffer.antt =====
-- shell/internal/term/buffer.go: the line buffer with its cursor, in runes. A method that mutates
-- `*Buffer` returns the new buffer. A slice expression out of range would panic in Go; here `take`
-- and `drop` stop at the end, and the invariant shows that no method gets there.
pub mod Zip
pub mod Edits
pub mod Word
pub mod AtCursor
use aish.Prelude.{
  ℕ, zero, suc, ◌+◌, ◌-◌, ◌≤◌, Bool, true, false, not, ◌||◌, List, [], ◌∷◌, ◌++◌, leb, ltb, ◌==◌,
  if◌then◌else◌, length, get_or, take, drop, Rune, Text, is_space,
}
use aish.Prelude.Int.{ℤ, pos, negsuc}

pub record Buffer : Type 0 where
  pub runes : List Rune
  pub cursor : ℕ

pub record IsValid (b : Buffer) : Type 0 where
  pub within : b.cursor ≤ length b.runes

abbrev pub new_buffer : Buffer
new_buffer = record { runes = []; cursor = 0 }

unfoldable pub set_text : Text → Buffer → Buffer
set_text s b = record b {
  runes = s;
  cursor = if ltb (length s) b.cursor then length s else b.cursor;
}

abbrev clamp_low : ℤ → ℕ
clamp_low (pos n) = n
clamp_low (negsuc n) = 0

unfoldable pub set_cursor : ℤ → Buffer → Buffer
set_cursor c b =
    let n = clamp_low c in
    record b { cursor = if ltb (length b.runes) n then length b.runes else n }

unfoldable pub clear : Buffer → Buffer
clear b = record b { runes = []; cursor = 0 }

unfoldable pub insert_rune : Rune → Buffer → Buffer
insert_rune r b =
    if b.cursor == length b.runes
    then record b { runes = b.runes ++ r ∷ []; cursor = b.cursor + 1 }
    else record b {
      runes = take b.cursor b.runes ++ (r ∷ drop b.cursor b.runes);
      cursor = b.cursor + 1;
    }

unfoldable pub backspace : Buffer → Buffer
backspace b = if b.cursor == 0 then b else record b {
  runes = take (b.cursor - 1) b.runes ++ drop b.cursor b.runes;
  cursor = b.cursor - 1;
}

unfoldable pub delete : Buffer → Buffer
delete b =
    if leb (length b.runes) b.cursor
    then b
    else record b { runes = take b.cursor b.runes ++ drop (b.cursor + 1) b.runes }

unfoldable pub move_left : Buffer → Buffer
move_left b = if ltb 0 b.cursor then record b { cursor = b.cursor - 1 } else b

unfoldable pub move_right : Buffer → Buffer
move_right b = if ltb b.cursor (length b.runes) then record b { cursor = b.cursor + 1 } else b

unfoldable pub home : Buffer → Buffer
home b = record b { cursor = 0 }

unfoldable pub end : Buffer → Buffer
end b = record b { cursor = length b.runes }

unfoldable pub kill_to_start : Buffer → Buffer
kill_to_start b = record b { runes = drop b.cursor b.runes; cursor = 0 }

unfoldable pub kill_to_end : Buffer → Buffer
kill_to_end b = record b { runes = take b.cursor b.runes }

-- `for i > 0 && p(runes[i-1]) { i-- }`
unfoldable pub walk_left : (Rune → Bool) → List Rune → ℕ → ℕ
walk_left p rs zero = 0
walk_left p rs (suc i) = let rest = walk_left p rs i in if p (get_or rs i 0) then rest else suc i

abbrev pub not_space : Rune → Bool
not_space c = not (is_space c)

unfoldable pub kill_word : Buffer → Buffer
unfolding walk_left
kill_word b =
    if b.cursor == 0
    then b
    else let ws_end = walk_left is_space b.runes b.cursor in
      let start = walk_left not_space b.runes ws_end in
      if start == ws_end
      then record b { runes = take start b.runes ++ drop b.cursor b.runes; cursor = start }
      else record b { runes = take start b.runes ++ drop ws_end b.runes; cursor = start }

-- `for i := 0; i < n; i++`, stopped at the first rune that is no blank.
unfoldable pub blank_below : List Rune → ℕ → Bool
blank_below rs zero = true
blank_below [] (suc n) = true
blank_below (c ∷ rs) (suc n) = if is_space c then blank_below rs n else false

-- `for i < len(runes) && p(runes[i]) { i++ }`, over the runes from index `i` on.
unfoldable pub walk_right : (Rune → Bool) → List Rune → ℕ → ℕ
walk_right p [] i = i
walk_right p (c ∷ rs) i = let rest = walk_right p rs (i + 1) in if p c then rest else i

-- What TokenAtCursor returns.
pub record Token : Type 0 where
  pub text : Text
  pub start : ℕ
  pub is_first : Bool

unfoldable pub token_at_cursor : Buffer → Token
unfolding blank_below walk_left walk_right
token_at_cursor b =
    if length b.runes == 0
    then record { text = []; start = 0; is_first = true }
    else if b.cursor == 0 || is_space (get_or b.runes (b.cursor - 1) 0)
    then record { text = []; start = b.cursor; is_first = blank_below b.runes b.cursor }
    else let start = walk_left not_space b.runes b.cursor in
      let last = walk_right not_space (drop b.cursor b.runes) b.cursor in
      record {
        text = take (last - start) (drop start b.runes);
        start = start;
        is_first = blank_below b.runes start;
      }
