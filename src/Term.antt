-- ===== src/Term.antt =====
-- shell/internal/term: the line editor of the interactive shell.
pub mod Buffer
pub mod History
pub mod Search
pub mod Editor
pub mod Decode
pub mod Highlight
mod Tests
