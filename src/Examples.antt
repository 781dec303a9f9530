-- ===== src/Examples.antt =====
-- The theorems at concrete inputs.
mod Data
mod Ranges
mod Download
mod Store
mod Cache
mod Evict
mod Monitor
mod Sync
mod Manager
mod Drive
mod Quota
mod Config
mod Fuse
mod Mounts
mod Progress
