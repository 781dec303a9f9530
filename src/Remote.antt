-- ===== src/Remote.antt =====
-- internal/remote/adapter.go: what a remote backend reports. The backends themselves are behind the
-- interface `RemoteAdapter`, whose calls the other parts take as answers.
pub mod Quota
