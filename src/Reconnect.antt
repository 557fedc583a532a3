-- ===== src/Reconnect.antt =====
-- mount/src/reconnect.rs: the client that connects to the daemon again when the connection breaks.
-- A loop that the code bounds only by the clock runs on fuel: `none` is a loop that is still
-- running.
pub mod Bounds
pub mod Connections
pub mod Daemon
pub mod InStep
pub mod Verbs
use unidrive_mount_linux.Base.{
  ℕ, zero, suc, ◌-◌, refl, Bool, true, false, ◌&&◌, ◌||◌, Option, none, some, arith, list_eq,
  nat_eq, ltb, leb, Str, str, starts_with,
}
use unidrive_mount_linux.Ipc.{IpcError, io, server_error, not_found, connection_refused}
use unidrive_mount_linux.Base.Exec.{Result, err, ok}

-- `is_auth_terminal` of mount/src/ipc.rs
unfoldable pub is_auth_terminal : IpcError → Bool
is_auth_terminal (server_error m) =
    starts_with m (str "auth_failed") || starts_with m (str "auth_unavailable")
is_auth_terminal _ = false

-- The errors that `connect_auth_at_startup` waits out.
unfoldable pub is_not_ready : IpcError → Bool
is_not_ready (io not_found) = true
is_not_ready (io connection_refused) = true
is_not_ready _ = false

-- Opening a connection, the clock and the pause between two attempts, in a world of which nothing is
-- known, with the total time for attempts.
pub record Net : Type 1 where
  pub World : Type 0
  pub Conn : Type 0
  pub open_conn : World → Result IpcError Conn × World
  pub now : World → ℕ
  pub pause : World → World
  pub budget : ℕ

-- `ReconnectingIpcClient`
pub record Client (C : Type 0) : Type 0 where
  pub inner : Option C
  pub auth_failure : Option Str

module _ (n : Net) where
  open n use {World, Conn}

  -- A call that has ended, with the client and the world after it.
  abbrev pub Ended : Type 0 → Type 0
  Ended A = Result IpcError A × Client Conn × World

  -- A verb on a connection.
  abbrev pub Method : Type 0 → Type 0
  Method A = Conn → World → Result IpcError A × Conn × World

  -- `connect_auth_at_startup`
  unfoldable pub connect_at_startup : ℕ → ℕ → World → Option (Result IpcError Conn × World)
  unfolding is_not_ready
  connect_at_startup zero start w = none
  connect_at_startup (suc f) start w =
      let (r, w') = n.open_conn w in
      elim r [
        | ok c ↦ some (ok c, w')
        | err e ↦ elim (is_not_ready e && ltb (n.now w' - start) n.budget) [
          | true ↦ connect_at_startup f start (n.pause w')
          | false ↦ some (err e, w')
        ]
      ]

  -- The message of a terminal failure, which later calls fail with.
  unfoldable pub note_failure : IpcError → Client Conn → Client Conn
  note_failure (server_error m) c = record c { auth_failure = some m }
  note_failure _ c = c

  -- The loop of `ensure_connected`.
  unfoldable pub connect_loop : ℕ → ℕ → Client Conn → World → Option (Ended (Unit {0}))
  unfolding is_auth_terminal note_failure
  connect_loop zero start c w = none
  connect_loop (suc f) start c w =
      let (r, w') = n.open_conn w in
      elim r [
        | ok conn ↦ some (ok tt, record c { inner = some conn }, w')
        | err e ↦ elim (is_auth_terminal e) [
          | true ↦ some (err e, note_failure e c, w')
          | false ↦ elim (leb n.budget (n.now w' - start)) [
            | true ↦ some (err e, c, w')
            | false ↦ connect_loop f start c (n.pause w')
          ]
        ]
      ]

  -- `ensure_connected`
  unfoldable pub ensure_connected : ℕ → Client Conn → World → Option (Ended (Unit {0}))
  unfolding connect_loop
  ensure_connected f c w = elim c.auth_failure [
    | some m ↦ some (err (server_error m), c, w)
    | none ↦ elim c.inner [ some conn ↦ some (ok tt, c, w) | none ↦ connect_loop f (n.now w) c w ]
  ]

  module _ {A : Type 0} where
    -- The call of `no_retry_on_io!` once there is a connection. Without one the code panics; there
    -- is one after `ensure_connected`.
    unfoldable pub call_once : Method A → Client Conn → World → Option (Ended A)
    call_once m c w = elim c.inner [
      | none ↦ none
      | some conn ↦
          let (r, conn', w') = m conn w in
          some (elim r [
            | ok v ↦ (ok v, record c { inner = some conn' }, w')
            | err (io k) ↦ (err (io k), record c { inner = none }, w')
            | err e ↦ (err e, record c { inner = some conn' }, w')
          ])
    ]

    -- `no_retry_on_io!`
    unfoldable pub no_retry_on_io : ℕ → Method A → Client Conn → World → Option (Ended A)
    unfolding ensure_connected call_once
    no_retry_on_io f m c w = elim (ensure_connected f c w) [
      | none ↦ none
      | some (err e, c', w') ↦ some (err e, c', w')
      | some (ok u, c', w') ↦ call_once m c' w'
    ]

    -- `retry_io_loop!`
    unfoldable pub retry_io_loop : ℕ → ℕ → Method A → Client Conn → World → Option (Ended A)
    unfolding no_retry_on_io
    retry_io_loop zero f m c w = none
    retry_io_loop (suc k) f m c w = elim (ensure_connected f c w) [
      | none ↦ none
      | some (err e, c', w') ↦ some (err e, c', w')
      | some (ok u, c', w') ↦ elim (call_once m c' w') [
        | some (err (io kind), c2, w2) ↦ retry_io_loop k f m c2 w2
        | other ↦ other
      ]
    ]
