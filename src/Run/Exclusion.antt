-- ===== src/Run/Exclusion.antt =====
-- The lock of the profile over a whole run of mount/src/run.rs.
use unidrive_mount_linux.Base.{
  ◌≡◌, ◌⊎◌, refl, sym, ◌∙◌, inl, inr, ℕ, Bool, Option, none, some, list_eq, nat_eq, Bool-cases,
  Option-cases, Str,
}
use unidrive_mount_linux.Base.Exec.{err, Result-cases}
use unidrive_mount_linux.Cli.{Cli}
use unidrive_mount_linux.Ipc.Client.{Conn}
use unidrive_mount_linux.IpcAuth.{IpcAuth}
use unidrive_mount_linux.ProfileLock.{ProfileLock, acquire, granted, drop_lock}
use unidrive_mount_linux.ProfileLock.Exclusion.{IsFlock, Mine, acquire-outcome}
use unidrive_mount_linux.Reconnect.{connect_at_startup}
use unidrive_mount_linux.Reconnect.Daemon.{net, connect_inner}
use unidrive_mount_linux.Run.{
  Platform, Outcome, Failure, SignalKind, terminate, interrupt, StopReason, session_ended,
  signalled, serve, mount, session, daemon, auth_of, unlocked, run_async, not_locked, scan_failed,
  not_connected,
}
use unidrive_mount_linux.Scanner.{scan_and_replay}

-- The lock and the mount are apart: what is done to the lock's file mounts nothing, and the mount, its
-- signals and its end leave the lock to the file of this process that has it.
pub record IsApart (p : Platform) (path : Str) (holder : p.Kernel → Option p.files.File)
    (Ours : p.Kernel → p.files.File → Type 0) (mounted : p.Kernel → Bool) : Type 0 where
  pub flock : IsFlock p.files path holder Ours
  pub open_mounts : (k : p.Kernel) → mounted (p.files.open_file path k).1 ≡ mounted k
  pub flock_mounts : (f : p.files.File) (k : p.Kernel) → mounted (p.files.flock f k).1 ≡ mounted k
  pub close_mounts : (f : p.files.File) (k : p.Kernel) → mounted (p.files.close f k) ≡ mounted k
  pub mount_holds :
      (f : p.files.File) (dir : Str) (k : p.Kernel)
      → Mine holder Ours k f
      → Mine holder Ours (p.mount_at dir k).1 f
  pub signal_holds :
      (f : p.files.File) (s : SignalKind) (k : p.Kernel)
      → Mine holder Ours k f
      → Mine holder Ours (p.handle_signal s k).1 f
  pub wait_holds :
      (f : p.files.File) (k : p.Kernel) (w : p.link.World)
      → Mine holder Ours k f
      → Mine holder Ours (p.wait k w).1 f
  pub unmount_holds :
      (f : p.files.File) (k : p.Kernel) → Mine holder Ours k f → Mine holder Ours (p.unmount k).1 f
  pub drop_holds :
      (f : p.files.File) (k : p.Kernel) → Mine holder Ours k f → Mine holder Ours (p.drop_mount k) f

module _ (p : Platform) (path : Str) (holder : p.Kernel → Option p.files.File)
    (Ours : p.Kernel → p.files.File → Type 0) (mounted : p.Kernel → Bool)
    (apart : IsApart p path holder Ours mounted) where
  StopReason-cases : (s : StopReason) → ((b : Bool) × (s ≡ session_ended b)) ⊎ (s ≡ signalled)
  StopReason-cases (session_ended b) = inl (b, refl)
  StopReason-cases signalled = inr refl

  -- What a step leaves to the file that has the lock.
  module _ (f : p.files.File) where
    abbrev Holds : p.Kernel → Type 0
    Holds k = Mine holder Ours k f

    serve-Holds : (k : p.Kernel) (w : p.link.World) → Holds k → Holds (serve p k w).1
    unfolding serve
    serve-Holds k w h =
        let k1 = (p.handle_signal terminate k).1 in
        let k2 = (p.handle_signal interrupt k1).1 in
        let first = apart.signal_holds f terminate k h in
        let second = apart.signal_holds f interrupt k1 first in
        let waited = apart.wait_holds f k2 w second in
        elim (Bool-cases (p.handle_signal terminate k).0) [
          | inr b ↦ rw (b, serve) (apart.drop_holds f k1 first)
          | inl b ↦ elim (Bool-cases (p.handle_signal interrupt k1).0) [
            | inr c ↦ rw (b, c, serve) (apart.drop_holds f k2 second)
            | inl c ↦ elim (StopReason-cases (p.wait k2 w).0) [
              | inl (fine, s) ↦ rw (b, c, s, serve) (apart.drop_holds f (p.wait k2 w).1 waited)
              | inr s ↦ rw (b, c, s, serve) (apart.unmount_holds f (p.wait k2 w).1 waited)
            ]
          ]
        ]

    mount-Holds :
        (auth : IpcAuth) (dir : Str) (k : p.Kernel) (w : p.link.World)
        → Holds k
        → Holds (mount p auth dir k w).1
    unfolding mount
    mount-Holds auth dir k w h =
        let w1 = (connect_inner p.link p.secrets (some auth) p.afterwards w).1 in
        let mounting = apart.mount_holds f dir k h in
        elim (Result-cases (connect_inner p.link p.secrets (some auth) p.afterwards w).0) [
          | inr (e, r) ↦ rw (r, mount) h
          | inl (client, r) ↦ elim (Bool-cases (p.mount_at dir k).0) [
            | inl b ↦ rw (r, b, mount) (serve-Holds (p.mount_at dir k).1 w1 mounting)
            | inr b ↦ rw (r, b, mount) mounting
          ]
        ]

    session-Holds :
        (n : ℕ) (auth : IpcAuth) (cli : Cli) (incoming : Str) (k : p.Kernel) (w : p.link.World)
        {o : Outcome p}
        → session p n auth cli incoming k w ≡ some o
        → Holds k
        → Holds o.1
    unfolding session
    session-Holds n auth cli incoming k w {o} q h =
        let c : Conn p.link = record { incoming = incoming; world = w } in
        elim (Option-cases (scan_and_replay (p.tree k) (daemon p) n cli.cache c)) [
          | inl r ↦ absurd (let no : none ≡ some o = rw (r, session) at q in cc)
          | inr ((x, c1), r) ↦ elim (Result-cases x) [
            | inr (u, e) ↦
                (let all : some (err scan_failed, k, c1.world) ≡ some o = rw (r, e, session) at q in
                  let same : ◌≡◌ {A = Outcome p} (err scan_failed, k, c1.world) o = cc in
                  rw (← same) h)
            | inl (m, e) ↦
                (let all : some (mount p auth cli.mount k c1.world) ≡ some o =
                    rw (r, e, session) at q in
                  let same : mount p auth cli.mount k c1.world ≡ o = cc in
                  rw (← same) (mount-Holds auth cli.mount k c1.world h))
          ]
        ]

  acquire-mounted : (k : p.Kernel) → mounted (acquire p.files path k).1 ≡ mounted k
  unfolding acquire granted
  acquire-mounted k =
      let k1 = (p.files.open_file path k).1 in
      elim (Result-cases (p.files.open_file path k).0) [
        | inr (e, r) ↦ rw (r, acquire) (apart.open_mounts k)
        | inl (f, r) ↦
            let both = apart.flock_mounts f k1 ∙ apart.open_mounts k in
            elim (Option-cases (p.files.flock f k1).0) [
              | inl c ↦ rw (r, c, acquire) both
              | inr (e, c) ↦ rw (r, c, acquire) (apart.close_mounts f (p.files.flock f k1).1 ∙ both)
            ]
      ]

  unlocked-holder :
      (lock : ProfileLock p.files) (s : Option (Outcome p)) {o : Outcome p}
      → ((o : Outcome p) → s ≡ some o → Mine holder Ours o.1 lock.file)
      → unlocked p lock s ≡ some o
      → holder o.1 ≡ none
  unfolding drop_lock
  unlocked-holder lock none h q = absurd (cc)
  unlocked-holder lock (some (r, k, w)) {o} h q =
      let same : ◌≡◌ {A = Outcome p} (r, drop_lock p.files lock k, w) o = cc in
      rw (← same) (let (mine, has) = h (r, k, w) refl in apart.flock.releases k lock.file mine has)

  -- Where flock(2) does what its manual says, nothing but the mount mounts, and the mount leaves the
  -- lock to the file of this process that has it: whichever way a run under a lock file ends, the lock is left as it was. A run that got it
  -- has given it back; a run that found it with another process has left it there, mounted nothing,
  -- and failed.
  pub run_async-lock :
      (n f : ℕ) (cli : Cli) (k : p.Kernel) (w : p.link.World) (o : Outcome p)
      → cli.lock ≡ some path
      → run_async p n f cli k w ≡ some o
      → (holder o.1 ≡ holder k)
        × ((g : p.files.File)
            → holder k ≡ some g
            → (mounted o.1 ≡ mounted k) × (e : Failure) × (o.0 ≡ err e))
  unfolding run_async
  run_async-lock n f cli k w o l q =
      let first =
        connect_at_startup (net p.link p.secrets (some (auth_of p cli)) p.at_startup) n
          (p.at_startup.now w) w in
      elim (Option-cases first) [
        | inl r ↦ absurd (let no : none ≡ some o = rw (r, run_async) at q in cc)
        | inr ((x, w1), r) ↦ elim (Result-cases x) [
          | inr (e, c) ↦
              (let all : some (err (not_connected e), k, w1) ≡ some o = rw (r, c, run_async) at q in
                let same : ◌≡◌ {A = Outcome p} (err (not_connected e), k, w1) o = cc in
                rw (← same) (refl, λ g h. (refl, not_connected e, refl)))
          | inl (incoming, c) ↦
              let k1 = (acquire p.files path k).1 in
              elim (acquire-outcome p.files path holder Ours apart.flock k) [
                | inr (e, a, kept, why) ↦
                    (let all : some (err (not_locked e), k1, w1) ≡ some o =
                        rw (r, c, l, a, run_async) at q in
                      let same : ◌≡◌ {A = Outcome p} (err (not_locked e), k1, w1) o = cc in
                      rw (← same) (kept, λ g h. (acquire-mounted k, not_locked e, refl)))
                | inl (lock, a, named, free, mine, dropped) ↦
                    (let all : unlocked p lock (session p f (auth_of p cli) cli incoming k1 w1)
                          ≡ some o =
                        rw (r, c, l, a, run_async) at q in
                      let given_back : holder o.1 ≡ none =
                        unlocked-holder lock _
                          (λ o' s.
                            session-Holds lock.file f (auth_of p cli) cli incoming k1 w1 s mine)
                          all in
                      (given_back ∙ sym free, λ g h. absurd (cc)))
              ]
        ]
      ]
