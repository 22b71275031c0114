-- ===== src/Console.antt =====
-- internal/console: what the tool puts on a terminal.
pub mod Wrap
pub mod Table
pub mod Paint
pub mod Shown
