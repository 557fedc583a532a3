-- ===== src/Ipc.antt =====
-- mount/src/ipc.rs: the errors of a request and the entries of a listing.
pub mod Client
pub mod Entry
pub mod Inbound
use unidrive_mount_linux.Json.{Value, index, as_str, unwrap_or}
use unidrive_mount_linux.Base.{
  zero, suc, refl, arith, ◌==◌, list_eq, nat_eq, if◌then◌else◌, Str, str,
}

-- The kinds of `std::io::Error` that the program tells apart.
pub data IoKind : Type 0 where
  not_found connection_refused unexpected_eof invalid_data other : IoKind

-- `IpcError`. A malformed reply keeps the text that the error message shows.
pub data IpcError : Type 0 where
  io : IoKind → IpcError
  malformed : Str → IpcError
  server_error : Str → IpcError
  busy : IpcError
  unknown : Str → IpcError

-- `server_error(reply)`
unfoldable pub error_of_reply : Value → IpcError
error_of_reply reply =
    let e = unwrap_or (as_str (index reply (str "error"))) (str "unknown") in
    if e == str "busy" then busy else server_error e
