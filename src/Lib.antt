-- ===== src/Lib.antt =====
-- rvfs, an offline-first FUSE filesystem: every read and write goes through a local cache, and the
-- remote is synchronised in the background.
--
-- The parts, and the file that models each:
-- - Ranges: internal/download/rangeset.go, the byte ranges of a file that are on disk. `add`,
--   `contains`, `is_complete` and `gaps` are `Add`, `Contains`, `IsComplete` and `Gaps`;
--   `search_first` is `sort.Search`.
-- - Store: internal/cache/db.go, the metadata store. Store/Files, Store/Queue and Store/Conflicts
--   are the statements on the tables `files`, `pending_ops` and `conflicts`, Store/Like is `ListDir`
--   with its `LIKE`.
-- - Cache: internal/cache/cache.go, the cache layer: the files on disk and the store beside them.
--   Cache/Files has `Read`, `Write`, `SyncWrittenFile`, `Create`, `Truncate`, `Delete` and
--   `OpenOrCreate`, Cache/Dirs has `Mkdir`, `Rmdir`, `Chmod`, `Chtimes` and `Rename`.
-- - Evict: internal/cache/eviction.go, which takes files out of the cache by age, by free space and
--   by size.
-- - Monitor: internal/connectivity/monitor.go, the state machine of the connection.
-- - Sync: internal/sync/conflict.go (Sync/Resolve) and internal/sync/engine.go (Sync/Upload,
--   Sync/Ops, Sync/Pull, Sync/Watch and Sync/Progress). Sync/Watch runs the engine's watcher beside the monitor.
-- - Download: internal/download/manager.go, how readers wait for ranges, which goroutines bring
--   them (Download), the rounds of the download loop beside the cache file (Download/Loop), the
--   table of downloads with `Start`, `Cancel`, `Prefetch` and `ReleaseReader` (Download/Manager),
--   what the end of a goroutine does to that table (Download/Manager/Ends),
--   and `persistRangesLocked` and `flushCheckpoints` (Download/Checkpoints).
-- - Fuse: internal/fuse/node.go, `Open` with the check of checksums (Fuse/Open), `fileHandle`
--   (Fuse/Handles) and `downloadFileHandle` (Fuse/Downloads).
-- - Remote: internal/remote/adapter.go, the quota, with `quotaSnapshot` and `Statfs` of
--   internal/fuse/node.go (Remote/Quota).
-- - Drive: internal/remote/gdrive/gdrive.go, `streamWithRetry` (Drive/Stream), the paths and their
--   ids with the table `drive_path_ids` (Drive/Paths), and `escapeQuery` (Drive/Query).
-- - Config: `ByteSize` of internal/config/config.go and `byteSizeValue` of internal/cli/mount.go.
-- - Mounts: internal/ipc/mountreg.go, the registry of mounts (Mounts/Registry), and the choice of the
--   mount in `resolveMountPath` of internal/cli/helpers.go (Mounts/Resolve).
-- - Base has the shared notation and lemmas, Examples the theorems at concrete inputs.
--
-- How they interact: the cache layer, the evictor and the engine change one store and one disk. The
-- engine sends the queued operations and the dirty files, merges remote changes through the
-- resolver, and pauses on the states that the monitor broadcasts. The download manager records in a
-- range set what it has written to the cache, and keeps that set in the row of the file when a
-- download is cancelled or checkpointed. A handle of the file system reads and writes the cache
-- layer, or starts a download and waits for its ranges; the Drive adapter brings the bytes.
--
-- The system, the SQL driver and the remote are parameters: each operation takes what they answer,
-- so that every error path is a value of an argument. A statement that fails changes nothing, and a
-- transaction that is not committed is rolled back. Numbers are natural: sizes, offsets and times
-- are not negative and their sums stay below 2^63. The disk is the content of the regular files
-- under `files/`; empty directories and permissions are not part of it.
--
-- Bounds: `search_loop` runs on fuel, the length of the interval, and every round makes that
-- shorter; `pull_dir` runs on fuel for the depth of the remote tree; `decimal` on fuel for the
-- digits of its number. All other loops are structural.
--
-- `search_first` apart, the loops over the answers of the service, of the driver or of the system
-- end with the list of those answers; where it matters that they end sooner, a theorem says so.
-- `digits` writes numbers below 10^20 with fuel 19.
--
-- Not modelled: the nodes of the file system that only hand over to the cache layer, the sign-in to
-- the Drive, the daemon's sockets, the commands and the files of the configuration, which are input,
-- output and glue; timers; the read-ahead limit and the idle timeout of a download.
pub mod Base
pub mod Ranges
pub mod Store
pub mod Cache
pub mod Evict
pub mod Monitor
pub mod Sync
pub mod Download
pub mod Config
pub mod Drive
pub mod Fuse
pub mod Mounts
pub mod Remote
mod Examples
