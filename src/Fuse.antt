-- ===== src/Fuse.antt =====
-- internal/fuse/node.go: the nodes and the file handles of the mounted file system, over the cache
-- layer and the download manager.
pub mod Open
pub mod Verify
pub mod Handles
pub mod Writes
pub mod Downloads
use rvfs.Base.{
  Bool, String, str_append, str_eq, if◌then◌else◌, Error, os_error, sql_error, remote_error,
  cancelled_error, not_found, not_in_db, is_a_directory, nil_file,
}

-- What the kernel is told: an error of the system as it is, or one of these.
pub data Errno : Type 0 where
  from_system eio enoent : Errno

-- `toErrno`
unfoldable pub to_errno : Error → Errno
to_errno os_error = from_system
to_errno sql_error = eio
to_errno remote_error = eio
to_errno cancelled_error = eio
to_errno not_found = eio
to_errno not_in_db = eio
to_errno is_a_directory = eio
to_errno nil_file = eio

-- `childRel`
unfoldable pub child_rel : String → String → String
child_rel rel name = if str_eq rel "" then name else str_append rel (str_append "/" name)
