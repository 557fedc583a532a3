-- ===== src/Reconnect/InStep.antt =====
-- The client of mount/src/reconnect.rs keeps no connection on which a reply is still to be read.
use unidrive_mount_linux.Base.{ℕ, ◌≡◌, inl, inr, Option, some, [], arith, Option-cases, Str}
use unidrive_mount_linux.Base.Exec.{Result, ok, Result-cases}
use unidrive_mount_linux.Ipc.{IpcError}
use unidrive_mount_linux.Ipc.Client.{Link, connect}
use unidrive_mount_linux.Ipc.Client.Handshake.{Secrets, connect_auth}
use unidrive_mount_linux.Ipc.Client.InStep.{IsAnswering, ask, InStep-ask, connect_auth-incoming}
use unidrive_mount_linux.IpcAuth.{IpcAuth}
use unidrive_mount_linux.Json.{Value}
use unidrive_mount_linux.Reconnect.{Client, retry_io_loop, no_retry_on_io}
use unidrive_mount_linux.Reconnect.Connections.{no_retry_on_io-Kept, retry_io_loop-Kept}
use unidrive_mount_linux.Reconnect.Daemon.{Pacing, open_conn, net, method}

-- A connection that is kept has nothing left to be read.
abbrev pub IsInStep : Client Str → Type 0
IsInStep c = (s : Str) → c.inner ≡ some s → s ≡ []

module _ (l : Link) (x : Secrets l.World) (auth : Option IpcAuth) (t : Pacing l.World)
    (answering : IsAnswering l) where
  open_conn-incoming : (w : l.World) (s : Str) → (open_conn l x auth t w).0 ≡ ok s → s ≡ []
  unfolding open_conn connect
  open_conn-incoming w s q = elim (Option-cases auth) [
    | inr (a, e) ↦ elim (Result-cases (connect_auth l x a w).0) [
      | inl (c, r) ↦ ground (arith, connect_auth-incoming l x answering a w {c' = c} r)
      | inr (m, r) ↦ absurd (ground arith)
    ]
    | inl n ↦ ground arith
  ]

  module _ {A : Type 0} (req : Value) (read : Value → Result IpcError A) where
    method-incoming :
        (s : Str) (w : l.World) → s ≡ [] → (method l x auth t (ask l req read) s w).1 ≡ []
    unfolding method
    method-incoming s w e =
        (InStep-ask l answering req read).keeps (record { incoming = s; world = w }) e

    -- Where the daemon answers every request with one line, a verb of the reconnecting client (a
    -- request, and whatever is made of its reply), sent once or repeated, leaves no connection on
    -- which something is still to be read, whatever the verb answers: the next verb reads the reply
    -- to its own request.
    pub verb-IsInStep :
        (k f : ℕ) (c c' : Client Str) (w w' : l.World) (r : Result IpcError A)
        → IsInStep c
        → (no_retry_on_io (net l x auth t) f (method l x auth t (ask l req read)) c w
              ≡ some (r, c', w')
            → IsInStep c')
          × (retry_io_loop (net l x auth t) k f (method l x auth t (ask l req read)) c w
                ≡ some (r, c', w')
              → IsInStep c')
    verb-IsInStep k f c c' w w' r h = (
      λ q.
          no_retry_on_io-Kept (net l x auth t) (λ s. s ≡ []) open_conn-incoming
            (method l x auth t (ask l req read)) method-incoming f c w h q,
      λ q.
          retry_io_loop-Kept (net l x auth t) (λ s. s ≡ []) open_conn-incoming
            (method l x auth t (ask l req read)) method-incoming k f c w h q,
    )
