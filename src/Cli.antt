-- ===== src/Cli.antt =====
-- internal/cli: how a report becomes an exit code, and the small pieces of the command line.
pub mod Exit
