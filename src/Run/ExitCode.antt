-- ===== src/Run/ExitCode.antt =====
-- What the exit code of mount/src/run.rs tells.
use unidrive_mount_linux.Base.{
  ◌≡◌, refl, ◌⊎◌, inl, inr, ◌↔◌, ℕ, Bool, true, false, Option, none, some, List, arith, list_eq,
  nat_eq, Bool-cases, Option-cases, Str,
}
use unidrive_mount_linux.Base.Exec.{Result, ok, err, Result-cases}
use unidrive_mount_linux.Cli.{Cli, CliError, Env, usage_error, help, version, parse_args}
use unidrive_mount_linux.KernelFloor.{KernelFloorError, check_kernel_floor}
use unidrive_mount_linux.Run.{
  Platform, Outcome, run_async, run_with_argv, exit_code, ex_ok, ex_usage, ex_config,
  ex_generic_failure,
}
use unidrive_mount_linux.Version.{Build}

never : {P Q : Type 0} → (P → ⊥) → (Q → ⊥) → P ↔ Q
never f g = (λ h. absurd (f h), λ h. absurd (g h))

module _ (p : Platform) (k : p.Kernel) (w : p.link.World) where
  -- How the process ends: its code, and the kernel and the daemon then.
  abbrev End : Type 0
  End = ℕ × p.Kernel × p.link.World

  abbrev after_run : Option (Outcome p) → Option End
  after_run none = none
  after_run (some (r, k1, w1)) = some (exit_code p r, k1, w1)

  -- The end, from the command line, the kernel's floor, the user, the runtime and the run.
  abbrev end_of :
      Result CliError Cli
      → Result KernelFloorError (Unit {0})
      → Bool
      → Bool
      → (Cli → Option (Outcome p))
      → Option End
  end_of (err (help m)) c root runtime run = some (ex_ok, k, w)
  end_of (err (version m)) c root runtime run = some (ex_ok, k, w)
  end_of (err (usage_error m)) c root runtime run = some (ex_usage, k, w)
  end_of (ok cli) (err x) root runtime run = some (ex_config, k, w)
  end_of (ok cli) (ok u) true runtime run = some (ex_generic_failure, k, w)
  end_of (ok cli) (ok u) false false run = some (ex_generic_failure, k, w)
  end_of (ok cli) (ok u) false true run = after_run (run cli)

  abbrev pub Told :
      Result CliError Cli
      → Result KernelFloorError (Unit {0})
      → Bool
      → (Cli → Option (Outcome p))
      → End
      → Type 0
  Told a c root run (code, k', w') =
      (code ≡ ex_usage ↔ ((m : Str) × (a ≡ err (usage_error m))))
      × (code ≡ ex_config ↔ ((cli : Cli) × (x : KernelFloorError) × (a ≡ ok cli) × (c ≡ err x)))
      × (code ≡ ex_ok
          → ((m : Str) × ((a ≡ err (help m)) ⊎ (a ≡ err (version m))))
            ⊎ ((cli : Cli) × (a ≡ ok cli)
                × (c ≡ ok tt)
                × (root ≡ false)
                × (run cli ≡ some (ok tt, k', w'))))
      × ((root ≡ true) ⊎ ((code ≡ ex_usage) ⊎ (code ≡ ex_config)) → (k' ≡ k) × (w' ≡ w))

  end_of-Told :
      (a : Result CliError Cli) (c : Result KernelFloorError (Unit {0})) (root runtime : Bool)
      (run : Cli → Option (Outcome p)) (d : End)
      → end_of a c root runtime run ≡ some d
      → Told a c root run d
  end_of-Told (err (help m)) c root runtime run d q =
      let same : ◌≡◌ {A = End} (ex_ok, k, w) d = cc in
      rw (← same) (
        never (λ h. omega arith) (λ (m', h). cc),
        never (λ h. omega arith) (λ (cli, x, h, g). cc),
        λ h. inl (m, inl refl),
        λ h. (refl, refl),
      )
  end_of-Told (err (version m)) c root runtime run d q =
      let same : ◌≡◌ {A = End} (ex_ok, k, w) d = cc in
      rw (← same) (
        never (λ h. omega arith) (λ (m', h). cc),
        never (λ h. omega arith) (λ (cli, x, h, g). cc),
        λ h. inl (m, inr refl),
        λ h. (refl, refl),
      )
  end_of-Told (err (usage_error m)) c root runtime run d q =
      let same : ◌≡◌ {A = End} (ex_usage, k, w) d = cc in
      rw (← same) (
        (λ h. (m, refl), λ h. refl),
        never (λ h. omega arith) (λ (cli, x, h, g). cc),
        λ h. absurd (omega arith),
        λ h. (refl, refl),
      )
  end_of-Told (ok cli) (err x) root runtime run d q =
      let same : ◌≡◌ {A = End} (ex_config, k, w) d = cc in
      rw (← same) (
        never (λ h. omega arith) (λ (m', h). cc),
        (λ h. (cli, x, refl, refl), λ h. refl),
        λ h. absurd (omega arith),
        λ h. (refl, refl),
      )
  end_of-Told (ok cli) (ok u) true runtime run d q =
      let same : ◌≡◌ {A = End} (ex_generic_failure, k, w) d = cc in
      rw (← same) (
        never (λ h. omega arith) (λ (m', h). cc),
        never (λ h. omega arith) (λ (cli', x, h, g). cc),
        λ h. absurd (omega arith),
        λ h. (refl, refl),
      )
  end_of-Told (ok cli) (ok u) false false run d q =
      let same : ◌≡◌ {A = End} (ex_generic_failure, k, w) d = cc in
      rw (← same) (
        never (λ h. omega arith) (λ (m', h). cc),
        never (λ h. omega arith) (λ (cli', x, h, g). cc),
        λ h. absurd (omega arith),
        λ h. (refl, refl),
      )
  end_of-Told (ok cli) (ok u) false true run d q = elim (Option-cases (run cli)) [
    | inl o ↦ absurd (let no : none ≡ some d = rw o at q in cc)
    | inr ((ok v, k1, w1), o) ↦
        (let all : some (ex_ok, k1, w1) ≡ some d = rw o at q in
          let same : ◌≡◌ {A = End} (ex_ok, k1, w1) d = cc in
          rw (← same) (
            never (λ h. omega arith) (λ (m', h). cc),
            never (λ h. omega arith) (λ (cli', x, h, g). cc),
            λ h. inr (cli, refl, refl, refl, o),
            λ h. elim h [
              | inl r ↦ absurd (cc)
              | inr (inl r) ↦ absurd (omega arith)
              | inr (inr r) ↦ absurd (omega arith)
            ],
          ))
    | inr ((err x, k1, w1), o) ↦
        (let all : some (ex_generic_failure, k1, w1) ≡ some d = rw o at q in
          let same : ◌≡◌ {A = End} (ex_generic_failure, k1, w1) d = cc in
          rw (← same) (
            never (λ h. omega arith) (λ (m', h). cc),
            never (λ h. omega arith) (λ (cli', x', h, g). cc),
            λ h. absurd (omega arith),
            λ h. elim h [
              | inl r ↦ absurd (cc)
              | inr (inl r) ↦ absurd (omega arith)
              | inr (inr r) ↦ absurd (omega arith)
            ],
          ))
  ]

  module _ (n f : ℕ) (b : Build) (e : Env) (argv : List Str) where
    run_with_argv-end_of :
        run_with_argv p n f b e argv k w
        ≡ end_of
            (parse_args b e argv)
            (check_kernel_floor p.osrelease)
            p.is_root
            p.has_runtime
            (λ cli. run_async p n f cli k w)
    unfolding run_with_argv
    run_with_argv-end_of = elim (Result-cases (parse_args b e argv)) [
      | inr (help m, a) ↦ rw (a, run_with_argv) refl
      | inr (version m, a) ↦ rw (a, run_with_argv) refl
      | inr (usage_error m, a) ↦ rw (a, run_with_argv) refl
      | inl (cli, a) ↦ elim (Result-cases (check_kernel_floor p.osrelease)) [
        | inr (x, c) ↦ rw (a, c, run_with_argv) refl
        | inl (u, c) ↦ elim (Bool-cases p.is_root) [
          | inl r ↦ rw (a, c, r, run_with_argv) refl
          | inr r ↦ elim (Bool-cases p.has_runtime) [
            | inr h ↦ rw (a, c, r, h, run_with_argv) refl
            | inl h ↦ elim (Option-cases (run_async p n f cli k w)) [
              | inl o ↦ rw (a, c, r, h, o, run_with_argv) refl
              | inr ((x, k1, w1), o) ↦ rw (a, c, r, h, o, run_with_argv) refl
            ]
          ]
        ]
      ]
    ]

    -- Where a run ends: its code is 64 exactly for a wrong command line, and 78 exactly for a right
    -- one on a kernel that is too old or unknown; it is 0 only where help or the version was asked
    -- for, or where a run of a user that is not root succeeded. A run with the code 64 or 78, or of
    -- root, has changed nothing.
    pub run_with_argv-Told :
        (d : End)
        → run_with_argv p n f b e argv k w ≡ some d
        → Told
            (parse_args b e argv)
            (check_kernel_floor p.osrelease)
            p.is_root
            (λ cli. run_async p n f cli k w)
            d
    run_with_argv-Told d q =
        end_of-Told _ _ p.is_root p.has_runtime _ d (rw run_with_argv-end_of at q)
