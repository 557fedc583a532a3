-- ===== src/Reconnect/Connections.antt =====
-- What holds of every connection that the client of mount/src/reconnect.rs keeps.
use unidrive_mount_linux.Base.{
  ℕ, zero, suc, ◌-◌, ◌≡◌, inl, inr, none, some, arith, leb, Bool-cases, Option-cases,
}
use unidrive_mount_linux.Base.Exec.{Result, ok, err, Result-cases}
use unidrive_mount_linux.Ipc.{IpcError, io, server_error}
use unidrive_mount_linux.Reconnect.{
  Net, Client, Method, retry_io_loop, no_retry_on_io, connect_loop, ensure_connected, call_once,
  note_failure, is_auth_terminal,
}

module _ (n : Net) (P : n.Conn → Type 0) where
  -- Of the connection that is kept, if there is one.
  abbrev pub Kept : Client n.Conn → Type 0
  Kept c = (s : n.Conn) → c.inner ≡ some s → P s

  Kept-some : (c : Client n.Conn) (s : n.Conn) → P s → Kept (record c { inner = some s })
  Kept-some c s p s' e = let same : s ≡ s' = cc in rw (← same) p

  Kept-none : (c : Client n.Conn) → Kept (record c { inner = none })
  Kept-none c s e = absurd (cc)

  module _ (opened : (w : n.World) (s : n.Conn) → (n.open_conn w).0 ≡ ok s → P s) where
    note_failure-Kept : (e : IpcError) (c : Client n.Conn) → Kept c → Kept (note_failure n e c)
    unfolding note_failure
    note_failure-Kept (server_error m) c h = h
    note_failure-Kept (io k) c h = h
    note_failure-Kept _ c h = h

    connect_loop-Kept :
        (f start : ℕ) (c : Client n.Conn) (w : n.World) {r : Result IpcError (Unit {0})}
        {c' : Client n.Conn} {w' : n.World}
        → Kept c
        → connect_loop n f start c w ≡ some (r, c', w')
        → Kept c'
    unfolding connect_loop
    connect_loop-Kept zero start c w h q = absurd (cc)
    connect_loop-Kept (suc f) start c w {r} {c'} {w'} h q = elim (Result-cases (n.open_conn w).0) [
      | inl (s, o) ↦
          let same : c' ≡ record c { inner = some s } = ground arith in
          rw same (Kept-some c s (opened w s o))
      | inr (e, o) ↦ elim (Bool-cases (is_auth_terminal e)) [
        | inl b ↦
            let same : c' ≡ note_failure n e c = ground arith in rw same (note_failure-Kept e c h)
        | inr b ↦ elim (Bool-cases (leb n.budget (n.now (n.open_conn w).1 - start))) [
          | inl late ↦ (let same : c' ≡ c = ground arith in rw same h)
          | inr early ↦
              connect_loop-Kept f start c (n.pause (n.open_conn w).1) {r = r} {c' = c'} {w' = w'} h
                (ground arith)
        ]
      ]
    ]

    ensure_connected-Kept :
        (f : ℕ) (c : Client n.Conn) (w : n.World) {r : Result IpcError (Unit {0})}
        {c' : Client n.Conn} {w' : n.World}
        → Kept c
        → ensure_connected n f c w ≡ some (r, c', w')
        → Kept c'
    unfolding ensure_connected
    ensure_connected-Kept f c w {r} {c'} {w'} h q = elim (Option-cases c.auth_failure) [
      | inr (m, a) ↦ (let same : c' ≡ c = ground arith in rw same h)
      | inl a ↦ elim (Option-cases c.inner) [
        | inr (s, i) ↦ (let same : c' ≡ c = ground arith in rw same h)
        | inl i ↦ connect_loop-Kept f (n.now w) c w {r = r} {c' = c'} {w' = w'} h (ground arith)
      ]
    ]

    module _ {A : Type 0} (m : Method n A)
        (keeps : (s : n.Conn) (w : n.World) → P s → P (m s w).1) where
      call_once-Kept :
          (c : Client n.Conn) (w : n.World) {r : Result IpcError A} {c' : Client n.Conn}
          {w' : n.World}
          → Kept c
          → call_once n m c w ≡ some (r, c', w')
          → Kept c'
      unfolding call_once
      call_once-Kept c w {r} {c'} {w'} h q = elim (Option-cases c.inner) [
        | inl z ↦ absurd (ground arith)
        | inr (s, i) ↦
            let kept = Kept-some c (m s w).1 (keeps s w (h s i)) in
            elim (Result-cases (m s w).0) [
              | inl (v, e) ↦
                  (let same : c' ≡ record c { inner = some (m s w).1 } = ground arith in
                    rw same kept)
              | inr (io k, e) ↦
                  (let same : c' ≡ record c { inner = none } = ground arith in
                    rw same (Kept-none c))
              | inr (x, e) ↦
                  (let same : c' ≡ record c { inner = some (m s w).1 } = ground arith in
                    rw same kept)
            ]
      ]

      pub no_retry_on_io-Kept :
          (f : ℕ) (c : Client n.Conn) (w : n.World) {r : Result IpcError A} {c' : Client n.Conn}
          {w' : n.World}
          → Kept c
          → no_retry_on_io n f m c w ≡ some (r, c', w')
          → Kept c'
      unfolding no_retry_on_io
      no_retry_on_io-Kept f c w {r} {c'} {w'} h q = elim (Option-cases (ensure_connected n f c w)) [
        | inl z ↦ absurd (ground arith)
        | inr ((ok u, c1, w1), z) ↦
            call_once-Kept c1 w1 {r = r} {c' = c'} {w' = w'} (ensure_connected-Kept f c w h z)
              (ground arith)
        | inr ((err e, c1, w1), z) ↦
            (let same : c' ≡ c1 = ground arith in rw same (ensure_connected-Kept f c w h z))
      ]

      pub retry_io_loop-Kept :
          (k f : ℕ) (c : Client n.Conn) (w : n.World) {r : Result IpcError A} {c' : Client n.Conn}
          {w' : n.World}
          → Kept c
          → retry_io_loop n k f m c w ≡ some (r, c', w')
          → Kept c'
      unfolding retry_io_loop
      retry_io_loop-Kept zero f c w h q = absurd (cc)
      retry_io_loop-Kept (suc k) f c w {r} {c'} {w'} h q =
          elim (Option-cases (ensure_connected n f c w)) [
            | inl z ↦ absurd (ground arith)
            | inr ((err e, c1, w1), z) ↦
                (let same : c' ≡ c1 = ground arith in rw same (ensure_connected-Kept f c w h z))
            | inr ((ok u, c1, w1), z) ↦
                let h1 = ensure_connected-Kept f c w h z in
                elim (Option-cases (call_once n m c1 w1)) [
                  | inl y ↦ absurd (ground arith)
                  | inr ((err (io kind), c2, w2), y) ↦
                      retry_io_loop-Kept k f c2 w2 {r = r} {c' = c'} {w' = w'}
                        (call_once-Kept c1 w1 h1 y) (ground arith)
                  | inr ((other, c2, w2), y) ↦
                      (let same : c' ≡ c2 = ground arith in rw same (call_once-Kept c1 w1 h1 y))
                ]
          ]
