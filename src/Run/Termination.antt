-- ===== src/Run/Termination.antt =====
-- A run of mount/src/run.rs gets past its loops.
use unidrive_mount_linux.Base.{
  ℕ, suc, ◌<◌, ◌≡◌, refl, inl, inr, true, false, Option, none, some, list_eq, nat_eq, is_some,
  Option-cases, Str,
}
use unidrive_mount_linux.Base.Exec.{Result-cases}
use unidrive_mount_linux.Cli.{Cli}
use unidrive_mount_linux.Ipc.Client.{Conn}
use unidrive_mount_linux.IpcAuth.{IpcAuth}
use unidrive_mount_linux.ProfileLock.{acquire, ProfileLock}
use unidrive_mount_linux.Reconnect.{connect_at_startup}
use unidrive_mount_linux.Reconnect.Bounds.{IsTicking, connect_at_startup-ends}
use unidrive_mount_linux.Reconnect.Daemon.{net}
use unidrive_mount_linux.Run.{Platform, Outcome, session, daemon, auth_of, unlocked, run_async}
use unidrive_mount_linux.Scanner.{scan_and_replay}
use unidrive_mount_linux.Scanner.Termination.{IsFinite, scan_and_replay-ends}

not_none : {A : Type 0} (o : Option A) → is_some o ≡ true → o ≡ none → ⊥
not_none o s e = let no : false ≡ true = rw e at s in cc

module _ (p : Platform) (cli : Cli) (weight : Str → ℕ) (f : ℕ)
    (ticking : IsTicking (net p.link p.secrets (some (auth_of p cli)) p.at_startup))
    (finite : (k : p.Kernel) (root : Str)
      → (p.tree k).canonicalize cli.cache ≡ some root
      → IsFinite (p.tree k) root weight × (weight root < f)) where
  session-ends :
      (auth : IpcAuth) (incoming : Str) (k : p.Kernel) (w : p.link.World)
      → is_some (session p f auth cli incoming k w) ≡ true
  unfolding session
  session-ends auth incoming k w =
      let c : Conn p.link = record { incoming = incoming; world = w } in
      elim (Option-cases (scan_and_replay (p.tree k) (daemon p) f cli.cache c)) [
        | inl o ↦ absurd (
            not_none _ (scan_and_replay-ends (p.tree k) (daemon p) weight f cli.cache c (finite k))
              o)
        | inr ((x, c1), o) ↦ elim (Result-cases x) [
          | inl (n, r) ↦ rw (o, r, session) refl
          | inr (u, r) ↦ rw (o, r, session) refl
        ]
      ]

  unlocked-ends :
      (lock : ProfileLock p.files) (s : Option (Outcome p))
      → is_some s ≡ true
      → is_some (unlocked p lock s) ≡ true
  unlocked-ends lock none h = h
  unlocked-ends lock (some (r, k, w)) h = refl

  -- Where the clock ticks in every pause and the cache directory is finite, whatever the state of the
  -- kernel: a run ends if what it calls does. One more attempt to connect than the start-up budget has
  -- ticks, and one more directory than the cache root weighs, are enough.
  pub run_async-ends :
      (k : p.Kernel) (w : p.link.World)
      → is_some (run_async p (suc p.at_startup.budget) f cli k w) ≡ true
  unfolding run_async
  run_async-ends k w =
      let first =
        connect_at_startup (net p.link p.secrets (some (auth_of p cli)) p.at_startup)
          (suc p.at_startup.budget) (p.at_startup.now w) w in
      let connects = connect_at_startup-ends _ ticking w in
      elim (Option-cases first) [
        | inl o ↦ absurd (not_none first connects o)
        | inr ((x, w1), o) ↦ elim (Result-cases x) [
          | inr (e, r) ↦ rw (o, r, run_async) refl
          | inl (s, r) ↦ elim (Option-cases cli.lock) [
            | inl l ↦ rw (o, r, l, run_async) (session-ends (auth_of p cli) s k w1)
            | inr (path, l) ↦ elim (Result-cases (acquire p.files path k).0) [
              | inr (e, a) ↦ rw (o, r, l, a, run_async) refl
              | inl (lock, a) ↦
                  rw (o, r, l, a, run_async)
                    (unlocked-ends lock _
                      (session-ends (auth_of p cli) s (acquire p.files path k).1 w1))
            ]
          ]
        ]
      ]
