-- ===== src/Scanner/Plan.antt =====
-- What is to be sent again after a crash, known before anything is sent: the independent description
-- of the loop of mount/src/cache_scanner.rs.
use unidrive_mount_linux.Base.{
  ℕ, suc, ◌+◌, ◌≡◌, ◌≢◌, refl, ◌∙◌, inl, inr, Bool, false, not, none, some, List, [], ◌∷◌, ◌++◌,
  arith, map, contains, list_eq, nat_eq, if◌then◌else◌, All, Option-cases, Str, str,
}
use unidrive_mount_linux.Base.Decimal.{decimal}
use unidrive_mount_linux.Base.Exec.{ok, err}
use unidrive_mount_linux.Base.Int.{is_less}
use unidrive_mount_linux.Scanner.{Tree, CacheFile, Daemon, mtime_ms}

-- No two files have the same remote path.
abbrev pub Distinct : List CacheFile → Type 0
Distinct [] = Unit
Distinct ((cache_path, remote) ∷ files) =
    (contains (map (λ x. x.1) files) remote ≡ false) × Distinct files

-- What the scan sends: the query of a watermark, or an upload with its handle, remote path and cache
-- path.
pub data Request : Type 0 where
  asks : Str → Request
  sends : Str → Str → Str → Request

module _ {S : Type 0} (t : Tree) (root : Str) (d : Daemon S) where
  -- The daemon's watermarks hold still in the states that a scan meets: a query changes none of them,
  -- an upload none of another path.
  pub record IsSteady (Ready : S → Type 0) : Type 0 where
    pub ask_ready : (p : Str) (s : S) → Ready s → Ready (d.last_synced p s).1
    pub send_ready : (id p c : Str) (s : S) → Ready s → Ready (d.open_write id p c s).1
    pub ask_same :
        (p q : Str) (s : S)
        → Ready s
        → (d.last_synced q (d.last_synced p s).1).0 ≡ (d.last_synced q s).0
    pub send_same :
        (id p c q : Str) (s : S)
        → Ready s
        → q ≢ p
        → (d.last_synced q (d.open_write id p c s).1).0 ≡ (d.last_synced q s).0

  -- A file is due in a state if its modified time can be read, the daemon answers in that state with
  -- its watermark, and the file is not older.
  unfoldable pub is_due : S → CacheFile → Bool
  is_due s (cache_path, remote) = elim (mtime_ms t root cache_path) [
    | none ↦ false
    | some mtime ↦ elim (d.last_synced remote s).0 [ err e ↦ false | ok w ↦ not (is_less mtime w) ]
  ]

  -- The requests for files of which it is known which are due: a query for each whose modified time
  -- can be read, and after it an upload for each that is due. Uploads are numbered from the one after
  -- the given number.
  unfoldable pub plan : (CacheFile → Bool) → ℕ → List CacheFile → List Request
  plan due n [] = []
  plan due n ((cache_path, remote) ∷ files) =
      let rest = plan due n files in
      let later = plan due (n + 1) files in
      elim (mtime_ms t root cache_path) [
        | none ↦ rest
        | some mtime ↦
            asks remote
            ∷ (if due (cache_path, remote)
                then sends (str "recovery-" ++ decimal (n + 1)) remote (t.lossy cache_path) ∷ later
                else rest)
      ]

  -- Requests one after another, whatever their answers: how many uploads were accepted, and the state
  -- after them.
  unfoldable pub perform : List Request → S → ℕ × S
  perform [] s = (0, s)
  perform (asks remote ∷ requests) s = perform requests (d.last_synced remote s).1
  perform (sends id remote cache ∷ requests) s =
      let (r, s1) = d.open_write id remote cache s in
      let (k, s2) = perform requests s1 in (elim r [ ok reply ↦ suc k | err e ↦ k ], s2)

  is_due_same :
      (s s1 : S) (x : CacheFile)
      → (d.last_synced x.1 s1).0 ≡ (d.last_synced x.1 s).0
      → is_due s1 x ≡ is_due s x
  unfolding is_due
  is_due_same s s1 (cache_path, remote) e = elim (Option-cases (mtime_ms t root cache_path)) [
    | inl m ↦ rw (m, is_due) refl
    | inr (mtime, m) ↦ rw (m, e, is_due) refl
  ]

  abbrev pub Known : (CacheFile → Bool) → S → List CacheFile → Type 0
  Known due s files = All (λ x. is_due s x ≡ due x) files

  -- Where the watermarks of all other paths hold still, it holds still which other files are due.
  pub Known-others :
      (due : CacheFile → Bool) (s s1 : S) (remote : Str) (files : List CacheFile)
      → contains (map (λ x. x.1) files) remote ≡ false
      → ((q : Str) → q ≢ remote → (d.last_synced q s1).0 ≡ (d.last_synced q s).0)
      → Known due s files
      → Known due s1 files
  Known-others due s s1 remote [] c h k = tt
  Known-others due s s1 remote ((cache_path, q) ∷ files) c h (e, k) =
      let other : q ≢ remote = λ same. ground arith in
      let others : contains (map (λ x. x.1) files) remote ≡ false = ground arith in
      (
        is_due_same s s1 (cache_path, q) (h q other) ∙ e,
        Known-others due s s1 remote files others h k,
      )
