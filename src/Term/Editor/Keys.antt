-- ===== src/Term/Editor/Keys.antt =====
-- shell/internal/term/keys.go: the keys.
use aish.Prelude.{Bool, true, false, Rune}

-- The type and the rune of a key in one; only a rune key has a rune.
pub data Key : Type 0 where
  rune : Rune → Key
  ctrl_a ctrl_b ctrl_c ctrl_d ctrl_e ctrl_f ctrl_r ctrl_u ctrl_w tab enter backspace delete : Key
  home end up down left right esc unknown : Key

abbrev pub is_tab : Key → Bool
is_tab tab = true
is_tab _ = false
