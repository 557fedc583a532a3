-- ===== src/Reconnect/Daemon.antt =====
-- The verbs of `ReconnectingIpcClient` in mount/src/reconnect.rs: each is a verb of `IpcClient` under
-- one of the two macros, over connections that are made and authenticated as in mount/src/ipc.rs.
use unidrive_mount_linux.Base.{ℕ, Option, none, some, List, Str}
use unidrive_mount_linux.Base.Exec.{Result, ok, err}
use unidrive_mount_linux.Base.Int.{ℤ}
use unidrive_mount_linux.Host.{CreateReply}
use unidrive_mount_linux.Ipc.{IpcError}
use unidrive_mount_linux.Ipc.Client.{Link, Conn, Ipc, connect}
use unidrive_mount_linux.Ipc.Client.Handshake.{Secrets, connect_auth}
use unidrive_mount_linux.Ipc.Client.Verbs
use unidrive_mount_linux.Ipc.Entry.{ListEntry}
use unidrive_mount_linux.IpcAuth.{IpcAuth}
use unidrive_mount_linux.Json.{Value}
use unidrive_mount_linux.Reconnect.{Net, Client, Method, Ended, retry_io_loop, no_retry_on_io}

-- The clock, the pause between two attempts, and the time for attempts.
pub record Pacing (W : Type 0) : Type 0 where
  pub now : W → ℕ
  pub pause : W → W
  pub budget : ℕ

-- A connection of which the world is held apart.
abbrev pub part : {l : Link} → Result IpcError (Conn l) → Result IpcError Str
part (ok c) = ok c.incoming
part (err e) = err e

module _ (l : Link) (x : Secrets l.World) (auth : Option IpcAuth) (t : Pacing l.World) where
  -- `open`
  unfoldable pub open_conn : l.World → Result IpcError Str × l.World
  unfolding connect connect_auth
  open_conn w = elim auth [
    | some a ↦ (let (r, w') = connect_auth l x a w in (part r, w'))
    | none ↦ (let (r, w') = connect l w in (part r, w'))
  ]

  abbrev pub net : Net
  net = record {
    World = l.World;
    Conn = Str;
    open_conn = open_conn;
    now = t.now;
    pause = t.pause;
    budget = t.budget;
  }

  -- A call on the connection that is there.
  unfoldable pub method : {A : Type 0} → Ipc l A → Method net A
  method m s w = let (r, c) = m (record { incoming = s; world = w }) in (r, c.incoming, c.world)

  -- `connect_inner`
  unfoldable pub connect_inner : l.World → Result IpcError (Client Str) × l.World
  unfolding open_conn
  connect_inner w =
      let (r, w') = open_conn w in
      (elim r [ ok s ↦ ok (record { inner = some s; auth_failure = none }) | err e ↦ err e ], w')

  -- A verb: the fuel of its loops, the client and the world.
  abbrev pub Call : Type 0 → Type 0
  Call A = ℕ → ℕ → Client Str → l.World → Option (Ended net A)

  -- The verbs that are repeated after an I/O error.
  unfoldable pub open_read : Str → Str → Call Str
  unfolding retry_io_loop method
  open_read handle_id path k f = retry_io_loop net k f (method (Verbs.open_read l handle_id path))

  unfoldable pub close_handle : Str → Call (Unit {0})
  unfolding retry_io_loop method
  close_handle handle_id k f = retry_io_loop net k f (method (Verbs.close_handle l handle_id))

  unfoldable pub hydrate : Str → Call (Unit {0})
  unfolding retry_io_loop method
  hydrate path k f = retry_io_loop net k f (method (Verbs.hydrate l path))

  unfoldable pub dehydrate : Str → Call (Unit {0})
  unfolding retry_io_loop method
  dehydrate path k f = retry_io_loop net k f (method (Verbs.dehydrate l path))

  unfoldable pub last_synced : Str → Call ℤ
  unfolding retry_io_loop method
  last_synced path k f = retry_io_loop net k f (method (Verbs.last_synced l path))

  unfoldable pub list : Str → Call (List ListEntry)
  unfolding retry_io_loop method
  list prefix k f = retry_io_loop net k f (method (Verbs.list l prefix))

  unfoldable pub daemon_status : Call Value
  unfolding retry_io_loop method
  daemon_status k f = retry_io_loop net k f (method (Verbs.daemon_status l))

  -- The verbs that are sent once; their loops take no fuel for calls.
  unfoldable pub open_write : Str → Str → Str → Call Str
  unfolding no_retry_on_io method
  open_write handle_id path cache_path _ f =
      no_retry_on_io net f (method (Verbs.open_write l handle_id path cache_path))

  unfoldable pub open_write_begin : Str → Option Str → Call Str
  unfolding no_retry_on_io method
  open_write_begin path handle_id _ f =
      no_retry_on_io net f (method (Verbs.open_write_begin l path handle_id))

  unfoldable pub mkdir : Str → Call (Unit {0})
  unfolding no_retry_on_io method
  mkdir path _ f = no_retry_on_io net f (method (Verbs.mkdir l path))

  unfoldable pub unlink : Str → Call (Unit {0})
  unfolding no_retry_on_io method
  unlink path _ f = no_retry_on_io net f (method (Verbs.unlink l path))

  unfoldable pub rmdir : Str → Call (Unit {0})
  unfolding no_retry_on_io method
  rmdir path _ f = no_retry_on_io net f (method (Verbs.rmdir l path))

  unfoldable pub create : Str → Str → Call CreateReply
  unfolding no_retry_on_io method
  create handle_id path _ f = no_retry_on_io net f (method (Verbs.create l handle_id path))

  unfoldable pub rename : Str → Str → Call (Unit {0})
  unfolding no_retry_on_io method
  rename old_path new_path _ f = no_retry_on_io net f (method (Verbs.rename l old_path new_path))
