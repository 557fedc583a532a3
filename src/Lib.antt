-- ===== src/Lib.antt =====
-- Verification of unidrive-mount, the Linux FUSE co-daemon of unidrive (mount/src).
--
-- The program mounts a cloud drive. The kernel sends file requests to the filesystem, which answers
-- them from its caches, from the files of a local cache directory, and by verbs to the unidrive daemon
-- over a socket. The path map gives inodes to paths, the attribute cache holds what listings said, the
-- table of open handles holds the cache files that are open and whether they have unsent writes, and
-- change events from the daemon drop cached attributes.
--
-- Which file models what (paths from the repository's root):
-- - PathMap: mount/src/path_map.rs, `PathMap` with new, intern, forget, rename, path_for, inode_for and
--   inodes_at_or_below. PathMap/Bijection, /Rename and /History are about the two maps as inverses over
--   any calls, PathMap/Ancestors and /Members about which paths lie at or below others.
-- - Quota: mount/src/quota.rs, the quota cache behind `statfs`.
-- - Json, Ipc, Ipc/Entry: mount/src/ipc.rs, parsed replies, IPC errors, `parse_list_entry`. Ipc/Inbound:
--   `read_inbound_line` and `read_event_line`. Ipc/Client: `IpcClient`, with `round_trip` and `connect`;
--   Ipc/Client/Verbs has its verbs, Ipc/Client/Handshake `connect_auth` and `handshake`, and
--   Ipc/Client/Listing the form in which the daemon sends a listing.
-- - IpcAuth: mount/src/ipc_auth.rs, the token and the proofs of the handshake.
-- - Reconnect: mount/src/reconnect.rs, `connect_auth_at_startup`, `ensure_connected` and the macros
--   `retry_io_loop!` and `no_retry_on_io!`. Reconnect/Daemon: the verbs made of them, over connections of
--   Ipc/Client.
-- - Cli, Version: mount/src/cli.rs and mount/src/version.rs.
-- - Subscribe: mount/src/subscribe.rs, `invalidation_of`. Subscribe/Loop: `run_subscription`.
-- - ViewRefresh: mount/src/view_refresh.rs, from the event stream to the cached view; ViewRefresh/Unsent
--   is about files with unsent writes.
-- - Scanner: mount/src/cache_scanner.rs, `collect_files` and `scan_and_replay`. Scanner/Plan describes
--   what is to be sent, apart from the code.
-- - KernelFloor: mount/src/kernel_floor.rs. ProfileLock: mount/src/profile_lock.rs.
-- - Run: mount/src/run.rs, `run_with_argv` and `run_async`.
-- - Host: what the filesystem calls: the verbs of mount/src/reconnect.rs, cache files, clocks, the
--   user, Unicode normalisation. It is a record of functions on a world of which nothing is known.
-- - Names, Attr, Errno: the free functions of mount/src/fuse_fs.rs on paths, names, attributes and error
--   numbers.
-- - Fs: `UnidriveFs` of mount/src/fuse_fs.rs as a record, and the steps its handlers are made of, in a
--   monad that hands the state on past an error. Fs/Listing has the listings, the attribute cache and
--   the raw names; Fs/Reads has lookup (lookup_child), getattr, opendir, readdir and readdirplus;
--   Fs/Volume has init, statfs and the extended attributes; Fs/Files has open (open_inode), read, write,
--   fsync and release; Fs/Creation has create and mknod; Fs/Setattr has setattr; Fs/Namespace has mkdir,
--   unlink, rmdir and rename; Fs/View has `ViewCache::apply`.
-- - Fs/Invariant: the well-formedness of the state and the rules by which each handler keeps it.
-- - Fs/Handles, Fs/Listing/RawNames, Fs/Reads/Directory, Fs/Setattr/Truncation, Fs/Namespace/Removal
--   and /Moves, Fs/View/Laws: what the handlers do.
-- - Base: equality tests, text as UTF-8 bytes, maps as association lists, results and the monad.
-- - Tests: runs at concrete inputs and an instance of each result.
--
-- Choices. Text is a list of bytes, so `len`, `rfind('/')` and `starts_with` are exact. A `HashMap` is
-- an association list, whose order stands for any order of iteration. `u64` counters wrap modulo 2^64;
-- the theorems on them ask for room below 2^64 where one is needed. The loop of `is_at_or_below` runs on
-- fuel, one more than the length of the path, which every round shortens, and so does the loop that
-- drops a long line, on the bytes that are left. The loops of mount/src/reconnect.rs stop by the clock:
-- on fuel they return `none` while they still run, and a theorem gives enough fuel. A handler is one step:
-- the interleavings of handlers between the locks of one handler are not modelled, except that fsync is
-- also split into the two halves between which writes may run. Log lines are left out.
--
-- The socket, the JSON crate, HMAC-SHA256, base64url, the random bytes and the directory tree are
-- parameters. A connection is known by the bytes that are still to be read on it: a daemon that stays
-- silent, for which the code waits, is one whose bytes end there. `run_subscription` has no end of its
-- own, so its fuel counts the rounds, and what is stated holds for every number of them; its inner loop
-- has one round more than the stream has bytes, and more would change nothing. The walk of
-- mount/src/cache_scanner.rs runs on fuel too, and one round more than the root weighs is enough.
--
-- The kernel of Run (the lock, the mount) is apart from the world of the daemon's connection.
--
-- Not modelled: logging, the panic hook, printed messages, and the spawning of the task that follows the
-- change events (the task itself is in ViewRefresh).
pub mod Attr
pub mod Base
pub mod Cli
pub mod Errno
pub mod Fs
pub mod Host
pub mod Ipc
pub mod IpcAuth
pub mod Json
pub mod KernelFloor
pub mod Names
pub mod PathMap
pub mod ProfileLock
pub mod Quota
pub mod Reconnect
pub mod Run
pub mod Scanner
pub mod Subscribe
pub mod Tests
pub mod Version
pub mod ViewRefresh
