-- ===== src/Reconnect/Bounds.antt =====
-- How long the loops of mount/src/reconnect.rs run.
use unidrive_mount_linux.Base.{
  ℕ, zero, suc, ◌+◌, ◌-◌, ◌≤◌, ◌<◌, ◌≡◌, refl, inl, inr, true, false, ◌&&◌, ltb, arith, list_eq,
  nat_eq, leb, Bool-cases, Option-cases, is_some,
}
use unidrive_mount_linux.Reconnect.{
  Net, is_not_ready, connect_at_startup, connect_loop, ensure_connected, Client, is_auth_terminal,
}
use unidrive_mount_linux.Base.Exec.{Result-cases}

-- A clock that never goes back, and a pause of at least one tick.
pub record IsTicking (n : Net) : Type 0 where
  pub attempts_take : (w : n.World) → n.now w ≤ n.now (n.open_conn w).1
  pub pauses_take : (w : n.World) → n.now w < n.now (n.pause w)

module _ (n : Net) (t : IsTicking n) where
  connect_loop-ends :
      (f start : ℕ) (c : Client n.Conn) (w : n.World)
      → start ≤ n.now w
      → start + n.budget ≤ n.now w + f
      → is_some (connect_loop n (suc f) start c w) ≡ true
  unfolding connect_loop
  connect_loop-ends zero start c w s l = elim (Result-cases (n.open_conn w).0) [
    | inl (conn, o) ↦ ground arith
    | inr (e, o) ↦
        let late : leb n.budget (n.now (n.open_conn w).1 - start) ≡ true =
          ground (arith, t.attempts_take w) in
        elim (Bool-cases (is_auth_terminal e)) [ inl b ↦ ground arith | inr b ↦ ground arith ]
  ]
  connect_loop-ends (suc f) start c w s l = elim (Result-cases (n.open_conn w).0) [
    | inl (conn, o) ↦ ground arith
    | inr (e, o) ↦ elim (Bool-cases (is_auth_terminal e)) [
      | inl b ↦ ground arith
      | inr b ↦ elim (Bool-cases (leb n.budget (n.now (n.open_conn w).1 - start))) [
        | inl late ↦ ground arith
        | inr early ↦ ground (
          arith,
          connect_loop-ends f start c (n.pause (n.open_conn w).1)
              (omega (arith, t.attempts_take w, t.pauses_take (n.open_conn w).1))
              (omega (arith, t.attempts_take w, t.pauses_take (n.open_conn w).1)),
        )
      ]
    ]
  ]

  -- On a clock that ticks in every pause, `ensure_connected` ends: one more round than the budget
  -- has ticks is enough fuel.
  pub ensure_connected-ends :
      (c : Client n.Conn) (w : n.World) → is_some (ensure_connected n (suc n.budget) c w) ≡ true
  unfolding ensure_connected
  ensure_connected-ends c w = elim (Option-cases c.auth_failure) [
    | inr (m, a) ↦ ground arith
    | inl a ↦ elim (Option-cases c.inner) [
      | inr (conn, i) ↦ ground arith
      | inl i ↦ ground (arith, connect_loop-ends n.budget (n.now w) c w (omega arith) (omega arith))
    ]
  ]

  startup_loop-ends :
      (f start : ℕ) (w : n.World)
      → start ≤ n.now w
      → start + n.budget ≤ n.now w + f
      → is_some (connect_at_startup n (suc f) start w) ≡ true
  unfolding connect_at_startup
  startup_loop-ends zero start w s l = elim (Result-cases (n.open_conn w).0) [
    | inl (conn, o) ↦ ground arith
    | inr (e, o) ↦
        let late : ltb (n.now (n.open_conn w).1 - start) n.budget ≡ false =
          ground (arith, t.attempts_take w) in
        ground arith
  ]
  startup_loop-ends (suc f) start w s l = elim (Result-cases (n.open_conn w).0) [
    | inl (conn, o) ↦ ground arith
    | inr (e, o) ↦
        elim (Bool-cases (is_not_ready e && ltb (n.now (n.open_conn w).1 - start) n.budget)) [
          | inr b ↦ rw (o, b, connect_at_startup) refl
          | inl b ↦
              rw (o, b, connect_at_startup)
                (startup_loop-ends f start (n.pause (n.open_conn w).1)
                  (omega (arith, t.attempts_take w, t.pauses_take (n.open_conn w).1))
                  (omega (arith, t.attempts_take w, t.pauses_take (n.open_conn w).1)))
        ]
  ]

  -- So does the first connection.
  pub connect_at_startup-ends :
      (w : n.World) → is_some (connect_at_startup n (suc n.budget) (n.now w) w) ≡ true
  connect_at_startup-ends w = startup_loop-ends n.budget (n.now w) w (omega arith) (omega arith)
