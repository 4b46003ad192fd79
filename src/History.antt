-- ===== src/History.antt =====
-- shell/internal/history: what is recorded of a command line before it runs.
pub mod Detect
pub mod Interceptor
mod Tests
