-- ===== src/Drive.antt =====
-- internal/remote/gdrive/gdrive.go: the Google Drive adapter. What the service answers is a
-- parameter of each function.
pub mod Stream
pub mod Paths
pub mod Query
