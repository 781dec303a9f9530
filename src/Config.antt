-- ===== src/Config.antt =====
-- internal/config/config.go and internal/cli/mount.go: byte sizes in the configuration file and on
-- the command line. A text is the list of its bytes, all of them ASCII.
pub mod Decimal
pub mod Sizes
pub mod RoundTrip
pub mod Flags
