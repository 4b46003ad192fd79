-- ===== src/Translate/Bash.antt =====
-- shell/internal/translate/reader/bash.go: what its parts share, tokens and lines.
pub mod Tokens
pub mod Line
pub mod Print
pub mod Headers
pub mod Cases
pub mod Blocks
mod Tests
use aish.Prelude.{ℕ, Text, []}

pub data BashToken : Type 0 where
  word : Text → BashToken
  pipe : BashToken
  redir : Text → BashToken

-- value
abbrev pub value : BashToken → Text
value (word w) = w
value pipe = []
value (redir op) = op

-- physicalLine
pub record PhysicalLine : Type 0 where
  pub line : ℕ
  pub text : Text
