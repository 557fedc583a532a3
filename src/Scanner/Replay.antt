-- ===== src/Scanner/Replay.antt =====
-- What mount/src/cache_scanner.rs sends is what the plan says.
use unidrive_mount_linux.Base.{
  ℕ, suc, ◌+◌, ◌≡◌, refl, ap, sym, ◌∙◌, inl, inr, Bool, true, false, none, some, List, [], ◌∷◌,
  ◌++◌, arith, list_eq, nat_eq, All, Bool-cases, Option-cases, Str, str,
}
use unidrive_mount_linux.Base.Decimal.{decimal}
use unidrive_mount_linux.Base.Exec.{Result, ok, err, attempt, pure, ◌>>=◌, Result-cases, bind-ok}
use unidrive_mount_linux.Base.Int.{ℤ, is_less}
use unidrive_mount_linux.Ipc.{IpcError}
use unidrive_mount_linux.Scanner.{
  Tree, CacheFile, Daemon, mtime_ms, collect_files, upload, replay, replay_all, scan_and_replay,
}
use unidrive_mount_linux.Scanner.Plan.{
  Distinct, Request, IsSteady, is_due, plan, perform, Known, Known-others,
}

module _ {S : Type 0} (t : Tree) (root : Str) (d : Daemon S) where
  replay_unreadable :
      (cache_path remote : Str) (counts : ℕ × ℕ) (s : S)
      → mtime_ms t root cache_path ≡ none
      → replay t root d (cache_path, remote) counts s ≡ (ok counts, s)
  unfolding replay pure
  replay_unreadable cache_path remote counts s m = rw (m, replay) refl

  module _ (cache_path remote : Str) (s : S) {mtime : ℤ}
      (m : mtime_ms t root cache_path ≡ some mtime) where
    abbrev asked : S
    asked = (d.last_synced remote s).1

    replay_skipped :
        (counts : ℕ × ℕ)
        → is_due t root d s (cache_path, remote) ≡ false
        → replay t root d (cache_path, remote) counts s ≡ (ok counts, asked)
    unfolding replay is_due attempt pure ◌>>=◌
    replay_skipped counts b = elim (Result-cases (d.last_synced remote s).0) [
      | inr (e, w) ↦ rw (m, replay, w) refl
      | inl (mark, w) ↦
          (let less : is_less mtime mark ≡ true = ground arith in rw (m, replay, w, less) refl)
    ]

    replay_sent :
        (replayed n : ℕ)
        → is_due t root d s (cache_path, remote) ≡ true
        → let (r, s1) =
            d.open_write (str "recovery-" ++ decimal (n + 1)) remote (t.lossy cache_path) asked in
          replay t root d (cache_path, remote) (replayed, n) s
          ≡ (ok (elim r [ ok reply ↦ replayed + 1 | err e ↦ replayed ], n + 1), s1)
    unfolding replay upload is_due attempt pure ◌>>=◌
    replay_sent replayed n b = elim (Result-cases (d.last_synced remote s).0) [
      | inr (e, w) ↦ absurd (ground arith)
      | inl (mark, w) ↦
          let less : is_less mtime mark ≡ false = ground arith in
          elim (Result-cases
            (d.open_write (str "recovery-" ++ decimal (n + 1)) remote (t.lossy cache_path)
              asked).0) [
                | inl (reply, r) ↦ rw (m, replay, w, less, r) refl
                | inr (e, r) ↦ rw (m, replay, w, less, r) refl
              ]
    ]

  replay_all_step :
      (x : CacheFile) (files : List CacheFile) (c : ℕ × ℕ) (s : S) {c1 : ℕ × ℕ} {s1 : S}
      → replay t root d x c s ≡ (ok c1, s1)
      → replay_all t root d (x ∷ files) c s ≡ replay_all t root d files c1 s1
  unfolding replay_all
  replay_all_step x files c s e =
      bind-ok (replay t root d x c) (λ c1. replay_all t root d files c1) e

  -- The loop sends the requests and counts the uploads that were accepted.
  abbrev Sends : List CacheFile → ℕ → ℕ → S → List Request → Type 0
  Sends files replayed n s requests =
      (m : ℕ) × (replay_all t root d files (replayed, n) s
        ≡ (ok (replayed + (perform t root d requests s).0, m), (perform t root d requests s).1))

  module _ (due : CacheFile → Bool) (cache_path remote : Str) (files : List CacheFile)
      (replayed n : ℕ) (s : S) where
    Sends-unreadable :
        mtime_ms t root cache_path ≡ none
        → Sends files replayed n s (plan t root d due n files)
        → Sends
            ((cache_path, remote) ∷ files)
            replayed
            n
            s
            (plan t root d due n ((cache_path, remote) ∷ files))
    unfolding plan
    Sends-unreadable e (m, ih) = (
      m,
      rw (e, plan)
          (replay_all_step (cache_path, remote) files (replayed, n) s
              (replay_unreadable cache_path remote (replayed, n) s e)
            ∙ ih),
    )

    module _ {mtime : ℤ} (e : mtime_ms t root cache_path ≡ some mtime) where
      Sends-skipped :
          is_due t root d s (cache_path, remote) ≡ false
          → due (cache_path, remote) ≡ false
          → Sends files replayed n (asked cache_path remote s e) (plan t root d due n files)
          → Sends
              ((cache_path, remote) ∷ files)
              replayed
              n
              s
              (plan t root d due n ((cache_path, remote) ∷ files))
      unfolding plan perform
      Sends-skipped b c (m, ih) = (
        m,
        rw (e, c, plan)
            (replay_all_step (cache_path, remote) files (replayed, n) s
                (replay_skipped cache_path remote s e (replayed, n) b)
              ∙ ih),
      )

      abbrev uploaded : Result IpcError Str × S
      uploaded =
          d.open_write (str "recovery-" ++ decimal (n + 1)) remote (t.lossy cache_path)
            (asked cache_path remote s e)

      Sends-sent :
          is_due t root d s (cache_path, remote) ≡ true
          → due (cache_path, remote) ≡ true
          → ((r : ℕ) → Sends files r (n + 1) uploaded.1 (plan t root d due (n + 1) files))
          → Sends
              ((cache_path, remote) ∷ files)
              replayed
              n
              s
              (plan t root d due n ((cache_path, remote) ∷ files))
      unfolding plan perform
      Sends-sent b c ih =
          let step = replay_sent cache_path remote s e replayed n b in
          let requests = plan t root d due (n + 1) files in
          let s1 = uploaded.1 in
          elim (Result-cases uploaded.0) [
            | inl (reply, r) ↦
                let (m, q) = ih (replayed + 1) in
                let shift : replayed + 1 + (perform t root d requests s1).0
                    ≡ replayed + suc (perform t root d requests s1).0 =
                  omega arith in
                (
                  m,
                  rw (e, c, r, plan, perform)
                      (replay_all_step (cache_path, remote) files (replayed, n) s (rw r at step)
                        ∙ q
                        ∙ ap (λ k. (ok (k, m), (perform t root d requests s1).1)) shift),
                )
            | inr (x, r) ↦
                let (m, q) = ih replayed in
                (
                  m,
                  rw (e, c, r, plan, perform)
                      (replay_all_step (cache_path, remote) files (replayed, n) s (rw r at step)
                        ∙ q),
                )
          ]

  module _ (Ready : S → Type 0) (steady : IsSteady t root d Ready) (due : CacheFile → Bool) where
    Sends-all :
        (files : List CacheFile) (replayed n : ℕ) (s : S)
        → Ready s
        → Distinct files
        → Known t root d due s files
        → Sends files replayed n s (plan t root d due n files)
    Sends-all [] replayed n s r u k = (
      n,
      (let a : replayed + 0 ≡ replayed = omega arith in
          unfold replay_all plan perform pure in rw a refl),
    )
    Sends-all ((cache_path, remote) ∷ files) replayed n s r (u, us) (k, ks) =
        elim (Option-cases (mtime_ms t root cache_path)) [
          | inl e ↦
              Sends-unreadable due cache_path remote files replayed n s e
                (Sends-all files replayed n s r us ks)
          | inr (mtime, e) ↦
              let s1 = asked cache_path remote s e in
              let r1 = steady.ask_ready remote s r in
              let ks1 =
                Known-others t root d due s s1 remote files u
                  (λ q other. steady.ask_same remote q s r) ks in
              elim (Bool-cases (is_due t root d s (cache_path, remote))) [
                | inr b ↦
                    Sends-skipped due cache_path remote files replayed n s e b (sym k ∙ b)
                      (Sends-all files replayed n s1 r1 us ks1)
                | inl b ↦
                    let id = str "recovery-" ++ decimal (n + 1) in
                    let s2 = (d.open_write id remote (t.lossy cache_path) s1).1 in
                    let r2 = steady.send_ready id remote (t.lossy cache_path) s1 r1 in
                    let ks2 =
                      Known-others t root d due s1 s2 remote files u
                        (λ q other. steady.send_same id remote (t.lossy cache_path) q s1 r1 other)
                        ks1 in
                    Sends-sent due cache_path remote files replayed n s e b (sym k ∙ b)
                      (λ before. Sends-all files before (n + 1) s2 r2 us ks2)
              ]
        ]

  All-same : (due : CacheFile → Bool) (files : List CacheFile) → All (λ x. due x ≡ due x) files
  All-same due [] = tt
  All-same due (x ∷ files) = (refl, All-same due files)

  -- Where a query changes no watermark and an upload only the one of its own path, and no two files
  -- have the same remote path: the scan of a cache directory that exists and could be walked queries
  -- the watermark of every file whose modified time can be read, in the order in which the files were
  -- found, uploads after its query each file that was due when the scan began and no other, numbered
  -- from 1 whatever became of the uploads before, and returns how many uploads were accepted.
  pub scan_and_replay-plan :
      (Ready : S → Type 0) (steady : IsSteady t root d Ready) (f : ℕ) (dir : Str)
      (files : List CacheFile) (s : S)
      → Ready s
      → t.exists dir ≡ true
      → t.canonicalize dir ≡ some root
      → collect_files t f dir ≡ some (ok files)
      → Distinct files
      → scan_and_replay t d f dir s
        ≡ some (
          ok (perform t root d (plan t root d (is_due t root d s) 0 files) s).0,
          (perform t root d (plan t root d (is_due t root d s) 0 files) s).1,
        )
  unfolding scan_and_replay
  scan_and_replay-plan Ready steady f dir files s r e c w u =
      let (m, all) =
        Sends-all Ready steady (is_due t root d s) files 0 0 s r u
          (All-same (is_due t root d s) files) in
      let zero_left : (k : ℕ) → 0 + k ≡ k = λ k. omega arith in rw (e, c, w, all, zero_left) refl
