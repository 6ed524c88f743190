-- ===== src/Cli.antt =====
-- internal/cli: options.go, and config.go of internal/config. The rest of internal/cli controls processes.
pub mod Options
pub mod Laws
