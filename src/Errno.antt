-- ===== src/Errno.antt =====
-- The error numbers that mount/src/fuse_fs.rs answers with, and the two maps from IPC errors.
use unidrive_mount_linux.Ipc.{IpcError, io, malformed, server_error, busy, unknown}
use unidrive_mount_linux.Base.{◌==◌, list_eq, nat_eq, if◌then◌else◌, str}

pub data Errno : Type 0 where
  eperm enoent eio ebadf ebusy eexist enotdir eisdir einval erange enotempty enodata : Errno

-- `ipc_error_to_errno`
unfoldable pub ipc_error_to_errno : IpcError → Errno
ipc_error_to_errno (io k) = eio
ipc_error_to_errno busy = ebusy
ipc_error_to_errno (server_error msg) = if msg == str "not_found" then enoent else eio
ipc_error_to_errno (malformed m) = eio
ipc_error_to_errno (unknown r) = eio

-- `namespace_err_to_errno`
unfoldable pub namespace_err_to_errno : IpcError → Errno
unfolding ipc_error_to_errno
namespace_err_to_errno (server_error msg) =
    if msg == str "parent_not_found"
    then enoent
    else if msg == str "unknown_path"
    then enoent
    else if msg == str "path_is_folder"
    then eisdir
    else if msg == str "path_is_file"
    then enotdir
    else if msg == str "not_empty"
    then enotempty
    else if msg == str "path_exists"
    then eexist
    else if msg == str "old_path_not_found"
    then enoent
    else if msg == str "new_parent_not_found"
    then enoent
    else if msg == str "new_path_exists"
    then eexist
    else ipc_error_to_errno (server_error msg)
namespace_err_to_errno other = ipc_error_to_errno other
