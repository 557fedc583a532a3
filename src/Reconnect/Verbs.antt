-- ===== src/Reconnect/Verbs.antt =====
-- What the verbs of mount/src/reconnect.rs do.
use unidrive_mount_linux.Base.{
  ℕ, zero, suc, ◌≡◌, refl, ◌⊎◌, inl, inr, none, some, arith, list_eq, nat_eq, Option-cases, Str,
  Bool-cases, leb, ◌-◌, true,
}
use unidrive_mount_linux.Reconnect.{
  Net, no_retry_on_io, retry_io_loop, Method, ensure_connected, Client, call_once, connect_loop,
  is_auth_terminal, note_failure,
}
use unidrive_mount_linux.Base.Exec.{err, ok, Result, Result-cases}
use unidrive_mount_linux.Ipc.{IoKind, server_error, io, IpcError}

module _ (n : Net) where
  ensure_connected-failed :
      (f : ℕ) (c : Client n.Conn) (w : n.World) (msg : Str)
      → c.auth_failure ≡ some msg
      → ensure_connected n f c w ≡ some (err (server_error msg), c, w)
  unfolding ensure_connected
  ensure_connected-failed f c w msg e = ground (arith)

  note_failure-auth_failure :
      (e : IpcError) (c : Client n.Conn)
      → is_auth_terminal e ≡ true
      → (msg : Str) × (e ≡ server_error msg) × ((note_failure n e c).auth_failure ≡ some msg)
  unfolding is_auth_terminal note_failure
  note_failure-auth_failure (server_error msg) c t = (msg, refl, refl)
  note_failure-auth_failure _ c t = absurd (cc)

  -- A terminal failure is noted, whenever the loop meets it.
  connect_loop-notes :
      (f start : ℕ) (c : Client n.Conn) (w : n.World) {e : IpcError} {c1 : Client n.Conn}
      {w1 : n.World}
      → connect_loop n f start c w ≡ some (err e, c1, w1)
      → is_auth_terminal e ≡ true
      → (msg : Str) × (e ≡ server_error msg) × (c1.auth_failure ≡ some msg)
  unfolding connect_loop
  connect_loop-notes zero start c w q t = absurd (cc)
  connect_loop-notes (suc f) start c w {e} {c1} {w1} q t =
      let w' = (n.open_conn w).1 in
      elim (Result-cases (n.open_conn w).0) [
        | inl (conn, o) ↦ absurd (ground arith)
        | inr (e', o) ↦ elim (Bool-cases (is_auth_terminal e')) [
          | inl s ↦
              let (msg, is, noted) = note_failure-auth_failure e' c s in
              (msg, ground arith, ground arith)
          | inr s ↦ elim (Bool-cases (leb n.budget (n.now w' - start))) [
            | inl b ↦ absurd (ground arith)
            | inr b ↦
                connect_loop-notes f start c (n.pause w') {e = e} {c1 = c1} {w1 = w1} (ground arith)
                  t
          ]
        ]
      ]

  ensure_connected-notes :
      (f : ℕ) (c : Client n.Conn) (w : n.World) {e : IpcError} {c1 : Client n.Conn} {w1 : n.World}
      → ensure_connected n f c w ≡ some (err e, c1, w1)
      → is_auth_terminal e ≡ true
      → (msg : Str) × (e ≡ server_error msg) × (c1.auth_failure ≡ some msg)
  unfolding ensure_connected
  ensure_connected-notes f c w {e} {c1} {w1} q t = elim (Option-cases c.auth_failure) [
    | inr (msg, a) ↦ (msg, ground arith, ground arith)
    | inl a ↦ elim (Option-cases c.inner) [
      | inr (conn, i) ↦ absurd (ground arith)
      | inl i ↦ connect_loop-notes f (n.now w) c w {e = e} {c1 = c1} {w1 = w1} (ground arith) t
    ]
  ]

  connect_loop-connects :
      (f start : ℕ) (c : Client n.Conn) (w : n.World)
      → c.auth_failure ≡ none
      → ((w' : n.World) → (conn : n.Conn) × ((n.open_conn w').0 ≡ ok conn))
      → (connect_loop n f start c w ≡ none)
        ⊎ ((c' : Client n.Conn) × (conn : n.Conn) × (w' : n.World) × (connect_loop n f start c w
              ≡ some (ok tt, c', w'))
            × (c'.inner ≡ some conn)
            × (c'.auth_failure ≡ none))
  unfolding connect_loop
  connect_loop-connects zero start c w a o = inl refl
  connect_loop-connects (suc f) start c w a o =
      let (conn, q) = o w in
      inr (record c { inner = some conn }, conn, (n.open_conn w).1, ground arith, refl, a)

  ensure_connected-connects :
      (f : ℕ) (c : Client n.Conn) (w : n.World)
      → c.auth_failure ≡ none
      → ((w' : n.World) → (conn : n.Conn) × ((n.open_conn w').0 ≡ ok conn))
      → (ensure_connected n f c w ≡ none)
        ⊎ ((c' : Client n.Conn) × (conn : n.Conn) × (w' : n.World) × (ensure_connected n f c w
              ≡ some (ok tt, c', w'))
            × (c'.inner ≡ some conn)
            × (c'.auth_failure ≡ none))
  unfolding ensure_connected
  ensure_connected-connects f c w a o = elim (Option-cases c.inner) [
    | inr (conn, i) ↦ inr (c, conn, w, ground (arith), i, a)
    | inl i ↦ elim (connect_loop-connects f (n.now w) c w a o) [
      | inl q ↦ inl (ground arith)
      | inr (c', conn, w', q, j, b) ↦ inr (c', conn, w', ground arith, j, b)
    ]
  ]

module _ (n : Net) {A : Type 0} where
  call_once_io :
      (m : Method n A) (c : Client n.Conn) (w : n.World) (conn : n.Conn) (kind : IoKind)
      → c.inner ≡ some conn
      → (m conn w).0 ≡ err (io kind)
      → call_once n m c w ≡ some (err (io kind), record c { inner = none }, (m conn w).2)
  unfolding call_once
  call_once_io m c w conn kind i z = ground arith

  -- Once a connection could not be made for a terminal authentication failure, every later verb, in
  -- any world and whatever the fuel, fails with the same error, and neither the client nor the world
  -- is touched.
  pub auth_failure-final :
      (g k f : ℕ) (m : Method n A) (c c1 : Client n.Conn) (w w1 later : n.World) (e : IpcError)
      → ensure_connected n g c w ≡ some (err e, c1, w1)
      → is_auth_terminal e ≡ true
      → (no_retry_on_io n f m c1 later ≡ some (err e, c1, later))
        × (retry_io_loop n (suc k) f m c1 later ≡ some (err e, c1, later))
  unfolding no_retry_on_io retry_io_loop
  auth_failure-final g k f m c c1 w w1 later e q t =
      let (msg, is, noted) = ensure_connected-notes n g c w q t in
      let failed = ensure_connected-failed n f c1 later msg noted in
      rw is (rw (failed, no_retry_on_io) refl, rw (failed, retry_io_loop) refl)

  -- Where every attempt to connect succeeds and every call of the verb ends in an I/O error, a
  -- retried verb never ends: the budget bounds attempts to connect, not calls.
  pub retry_io_loop-endless :
      (k f : ℕ) (m : Method n A) (c : Client n.Conn) (w : n.World)
      → c.auth_failure ≡ none
      → ((w' : n.World) → (conn : n.Conn) × ((n.open_conn w').0 ≡ ok conn))
      → ((conn : n.Conn) (w' : n.World) → (kind : IoKind) × ((m conn w').0 ≡ err (io kind)))
      → retry_io_loop n k f m c w ≡ none
  unfolding retry_io_loop
  retry_io_loop-endless zero f m c w a o e = refl
  retry_io_loop-endless (suc k) f m c w a o e = elim (ensure_connected-connects n f c w a o) [
    | inl q ↦ rw (q, retry_io_loop) refl
    | inr (c', conn, w', q, i, a') ↦
        let (kind, z) = e conn w' in
        rw (q, call_once_io m c' w' conn kind i z, retry_io_loop)
          (retry_io_loop-endless k f m (record c' { inner = none }) (m conn w').2 a' o e)
  ]

  call_once-answer :
      (m : Method n A) (c1 : Client n.Conn) (w1 : n.World) {r : Result IpcError A}
      {c2 : Client n.Conn} {w2 : n.World}
      → call_once n m c1 w1 ≡ some (r, c2, w2)
      → (conn : n.Conn) × (c1.inner ≡ some conn)
        × (r ≡ (m conn w1).0)
        × (w2 ≡ (m conn w1).2)
        × ((kind : IoKind) → r ≡ err (io kind) → c2.inner ≡ none)
  unfolding call_once
  call_once-answer m c1 w1 {r} {c2} {w2} q = elim (Option-cases c1.inner) [
    | inl z ↦ absurd (ground arith)
    | inr (conn, i) ↦ elim (Result-cases (m conn w1).0) [
      | inl (v, e) ↦ (conn, i, ground arith, ground arith, λ kind d. ground arith)
      | inr (io k, e) ↦ (conn, i, ground arith, ground arith, λ kind d. ground arith)
      | inr (x, e) ↦ (conn, i, ground arith, ground arith, λ kind d. ground arith)
    ]
  ]

  -- A verb that must not be sent twice is called at most once: it ends with the failure to connect,
  -- or it is called on the connection that is there and ends with the answer of that call in the
  -- world after it; after an I/O error the connection is dropped.
  pub no_retry_on_io-once :
      (f : ℕ) (m : Method n A) (c : Client n.Conn) (w : n.World) {r : Result IpcError A}
      {c2 : Client n.Conn} {w2 : n.World}
      → no_retry_on_io n f m c w ≡ some (r, c2, w2)
      → ((e : IpcError) × (r ≡ err e) × (ensure_connected n f c w ≡ some (err e, c2, w2)))
        ⊎ ((c1 : Client n.Conn) × (conn : n.Conn) × (w1 : n.World) × (ensure_connected n f c w
              ≡ some (ok tt, c1, w1))
            × (c1.inner ≡ some conn)
            × (r ≡ (m conn w1).0)
            × (w2 ≡ (m conn w1).2)
            × ((kind : IoKind) → r ≡ err (io kind) → c2.inner ≡ none))
  unfolding no_retry_on_io
  no_retry_on_io-once f m c w {r} {c2} {w2} q = elim (Option-cases (ensure_connected n f c w)) [
    | inl z ↦ absurd (ground arith)
    | inr ((ok u, c1, w1), z) ↦
        let (conn, i, a, b, d) =
          call_once-answer m c1 w1 {r = r} {c2 = c2} {w2 = w2} (ground arith) in
        inr (c1, conn, w1, z, i, a, b, d)
    | inr ((err e, c1, w1), z) ↦ inl (e, ground arith, ground arith)
  ]
