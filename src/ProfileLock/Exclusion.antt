-- ===== src/ProfileLock/Exclusion.antt =====
-- Who holds the lock of mount/src/profile_lock.rs.
use unidrive_mount_linux.Base.{
  ℕ, ◌≡◌, ◌≢◌, refl, ap, sym, ◌∙◌, ◌⊎◌, inl, inr, Option, none, some, list_eq, nat_eq,
  if◌then◌else◌, ◌==◌, Option-cases, Str,
}
use unidrive_mount_linux.Base.Exec.{ok, err, Result-cases}
use unidrive_mount_linux.ProfileLock.{
  Files, ProfileLock, ProfileLockError, open_error, held, flock_error, granted, acquire, drop_lock,
  would_block,
}

-- What open(2), flock(2) and close(2) say of the lock of the file at a path, of which `Ours` are the
-- files that this process has open there: a file that is opened has no lock yet; flock(2) succeeds
-- where nobody has the lock or this very file has it, and the file has it then; it fails with
-- EWOULDBLOCK where another open file has it; an error changes no lock; closing a file gives up its
-- lock and no other.
pub record IsFlock {K : Type 0} (sys : Files K) (path : Str) (holder : K → Option sys.File)
    (Ours : K → sys.File → Type 0) : Type 0 where
  pub opens : (k : K) → holder (sys.open_file path k).1 ≡ holder k
  pub opened :
      (k : K) (f : sys.File)
      → (sys.open_file path k).0 ≡ ok f
      → Ours (sys.open_file path k).1 f × (holder k ≢ some f)
  pub grants :
      (k : K) (f : sys.File)
      → Ours k f
      → (sys.flock f k).0 ≡ none
      → ((holder k ≡ none) ⊎ (holder k ≡ some f))
        × Ours (sys.flock f k).1 f
        × (holder (sys.flock f k).1 ≡ some f)
  pub refuses :
      (k : K) (f : sys.File) (e : ℕ)
      → Ours k f
      → (sys.flock f k).0 ≡ some e
      → holder (sys.flock f k).1 ≡ holder k
  pub blocks :
      (k : K) (f g : sys.File)
      → Ours k f
      → holder k ≡ some g
      → g ≢ f
      → (sys.flock f k).0 ≡ some would_block
  pub releases :
      (k : K) (f : sys.File) → Ours k f → holder k ≡ some f → holder (sys.close f k) ≡ none
  pub keeps : (k : K) (f : sys.File) → holder k ≢ some f → holder (sys.close f k) ≡ holder k

-- A file of this process has the lock.
abbrev pub Mine : {K F : Type 0} (holder : K → Option F) (Ours : K → F → Type 0) → K → F → Type 0
Mine holder Ours k f = Ours k f × (holder k ≡ some f)

module _ {K : Type 0} (sys : Files K) (path : Str) (holder : K → Option sys.File)
    (Ours : K → sys.File → Type 0) (flock : IsFlock sys path holder Ours) (k : K) where
  abbrev k_open : K
  k_open = (sys.open_file path k).1

  -- A file that was opened and refused the lock leaves it as it was.
  closed_again :
      {f : sys.File} {e : ℕ}
      → (sys.open_file path k).0 ≡ ok f
      → (sys.flock f k_open).0 ≡ some e
      → holder (sys.close f (sys.flock f k_open).1) ≡ holder k
  closed_again {f} {e} o r =
      let same : holder (sys.flock f k_open).1 ≡ holder k =
        flock.refuses k_open f e (flock.opened k f o).0 r ∙ flock.opens k in
      flock.keeps (sys.flock f k_open).1 f (rw same ((flock.opened k f o).1)) ∙ same

  abbrev refusal : ℕ → ProfileLockError
  refusal e = if e == would_block then held path else flock_error path e

  acquire-open_error :
      {code : ℕ}
      → (sys.open_file path k).0 ≡ err code
      → acquire sys path k ≡ (err (open_error path code), k_open)
  unfolding acquire
  acquire-open_error o = rw (o, acquire) refl

  acquire-granted :
      {f : sys.File}
      → (sys.open_file path k).0 ≡ ok f
      → (sys.flock f k_open).0 ≡ none
      → acquire sys path k ≡ (ok (record { path = path; file = f }), (sys.flock f k_open).1)
  unfolding acquire granted
  acquire-granted o r = rw (o, r, acquire) refl

  acquire-refused :
      {f : sys.File} {e : ℕ}
      → (sys.open_file path k).0 ≡ ok f
      → (sys.flock f k_open).0 ≡ some e
      → acquire sys path k ≡ (err (refusal e), sys.close f (sys.flock f k_open).1)
  unfolding acquire granted
  acquire-refused o r = rw (o, r, acquire) refl

  -- Where another file holds the lock, the code is the one of a lock that is held.
  refusal-held :
      {f g : sys.File} {e : ℕ}
      → (sys.open_file path k).0 ≡ ok f
      → (sys.flock f k_open).0 ≡ some e
      → holder k ≡ some g
      → refusal e ≡ held path
  refusal-held {f} {g} {e} o r h =
      let other : g ≢ f = (λ same. (flock.opened k f o).1 (h ∙ ap some same)) in
      let code : e ≡ would_block =
        (let b = flock.blocks k_open f g (flock.opened k f o).0 (flock.opens k ∙ h) other in cc) in
      unfold nat_eq in rw code refl

  free_before :
      {f : sys.File}
      → (sys.open_file path k).0 ≡ ok f
      → (holder k_open ≡ none) ⊎ (holder k_open ≡ some f)
      → holder k ≡ none
  free_before o (inl free) = sym (flock.opens k) ∙ free
  free_before {f} o (inr own) = absurd ((flock.opened k f o).1 (sym (flock.opens k) ∙ own))

  -- A process gets the lock only where nobody has it, holds it then until it drops it, and leaves it
  -- as it was where it does not get it; where another open file holds it, it is refused as held, if
  -- the file can be opened.
  pub acquire-outcome :
      ((lock : ProfileLock sys) × ((acquire sys path k).0 ≡ ok lock)
        × (lock.path ≡ path)
        × (holder k ≡ none)
        × Mine holder Ours (acquire sys path k).1 lock.file
        × (holder (drop_lock sys lock (acquire sys path k).1) ≡ none))
      ⊎ ((e : ProfileLockError) × ((acquire sys path k).0 ≡ err e)
          × (holder (acquire sys path k).1 ≡ holder k)
          × ((g : sys.File)
              → holder k ≡ some g
              → (e ≡ held path) ⊎ ((code : ℕ) × (e ≡ open_error path code))))
  acquire-outcome = elim (Result-cases (sys.open_file path k).0) [
    | inr (code, o) ↦
        let q = acquire-open_error o in
        inr (open_error path code, rw q refl, rw q (flock.opens k), λ g h. inr (code, refl))
    | inl (f, o) ↦ elim (Option-cases (sys.flock f k_open).0) [
      | inl r ↦
          let q = acquire-granted o r in
          let (before, mine, has) = flock.grants k_open f (flock.opened k f o).0 r in
          inl (
            record { path = path; file = f },
            rw q refl,
            refl,
            free_before o before,
            rw q (mine, has),
            rw q (unfold drop_lock in flock.releases (sys.flock f k_open).1 f mine has),
          )
      | inr (e, r) ↦
          let q = acquire-refused o r in
          inr (refusal e, rw q refl, rw q (closed_again o r), λ g h. inl (refusal-held o r h))
    ]
  ]
