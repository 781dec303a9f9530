-- ===== src/Mounts.antt =====
-- internal/ipc/mountreg.go and internal/cli/helpers.go: the registry of the running mounts, and the
-- mount that a path of the user lies in.
pub mod Registry
pub mod Live
pub mod Resolve
mod Longest
pub mod Innermost
