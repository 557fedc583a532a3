-- ===== src/Fs/Invariant.antt =====
-- The invariant of the filesystem's state in mount/src/fuse_fs.rs, and rules for the steps that
-- keep it. The counters are `u64`, so each rule counts the numbers that a step may use up.
pub mod Steps
pub mod Updates
pub mod Listings
pub mod Open
pub mod Tree
pub mod Answers
pub mod Requests
use unidrive_mount_linux.Base.Exec.{
  Result, ok, err, Exec, pure, raise, expect_some, mapped, attempt, ◌>>=◌, ◌>>◌, continue,
}
use unidrive_mount_linux.Base.Dict.{lookup}
use unidrive_mount_linux.PathMap
use unidrive_mount_linux.PathMap.{u64_mod}
use unidrive_mount_linux.PathMap.Bijection.{IsValid-new}
use unidrive_mount_linux.PathMap.Bijection
use unidrive_mount_linux.Attr.{CachedAttr}
use unidrive_mount_linux.Host.{Host}
use unidrive_mount_linux.Fs.{OpenHandle, Fs, St, new_fs}
use unidrive_mount_linux.Base.{
  ℕ, zero, suc, ◌+◌, ◌-◌, ◌≤◌, ◌<◌, ◌≡◌, refl, Bool, true, false, Option, none, some, arith,
  list_eq, nat_eq, if◌then◌else◌,
}

-- The path map is valid, attributes are cached only for inodes that were given out, and the table
-- of open handles only holds numbers that were given out.
pub record IsValid {F : Type 0} (fs : Fs F) : Type 0 where
  pub paths : Bijection.IsValid fs.paths
  pub attrs_known : (i : ℕ) (a : CachedAttr) → lookup i fs.attrs ≡ some a → i < fs.paths.next
  pub handles_known :
      (i : ℕ) (o : OpenHandle F) → lookup i fs.open_handles ≡ some o → i < fs.next_fh

-- A valid state whose counters are at least `k` from wrapping, and that has given out the inodes
-- below `lo`.
pub record Room {F : Type 0} (lo k : ℕ) (fs : Fs F) : Type 0 where
  pub valid : IsValid fs
  pub given : lo ≤ fs.paths.next
  pub inodes : fs.paths.next + k < u64_mod
  pub handles : fs.next_fh + k < u64_mod
  pub numbers : fs.next_handle_id + k < u64_mod

pub Room-less :
    {F : Type 0} {lo k : ℕ} {fs : Fs F} (lo' k' : ℕ)
    → Room lo k fs
    → lo' ≤ lo
    → k' ≤ k
    → Room lo' k' fs
Room-less lo' k' r g l = record {
  valid = r.valid;
  given = omega arith;
  inodes = omega arith;
  handles = omega arith;
  numbers = omega arith;
}

pub IsValid-new_fs : (F : Type 0) → IsValid (new_fs F)
unfolding new_fs lookup
IsValid-new_fs F = record {
  paths = IsValid-new;
  attrs_known = λ i a e. cc;
  handles_known = λ i o e. cc;
}

module _ {h : Host} where
  -- From a state with room for `c` more numbers than `k`, `m` leaves one with room for `k`,
  -- whether it returns or fails.
  pub record Keeps {E A : Type 0} (lo c : ℕ) (m : Exec E (St h) A) : Type 0 where
    pub at : (s : St h) (k : ℕ) → Room lo (c + k) s.fs → Room lo k (m s).1.fs

  module _ {E A : Type 0} {lo : ℕ} where
    pub Keeps-pure : (a : A) → Keeps {E = E} lo 0 (pure a)
    unfolding pure
    Keeps-pure a = record { at = λ s k r. Room-less lo k r (omega arith) (omega arith) }

    pub Keeps-raise : (e : E) → Keeps {A = A} lo 0 (raise e)
    unfolding raise
    Keeps-raise e = record { at = λ s k r. Room-less lo k r (omega arith) (omega arith) }

    pub Keeps-expect_some : (e : E) (o : Option A) → Keeps lo 0 (expect_some e o)
    unfolding expect_some
    Keeps-expect_some e none = record { at = λ s k r. Room-less lo k r (omega arith) (omega arith) }
    Keeps-expect_some e (some a) = record {
      at = λ s k r. Room-less lo k r (omega arith) (omega arith);
    }

    pub Keeps-less : {c : ℕ} (d : ℕ) {m : Exec E (St h) A} → c ≤ d → Keeps lo c m → Keeps lo d m
    Keeps-less d l km = record {
      at = λ s k r. km.at s k (Room-less lo _ r (omega arith) (omega arith));
    }

    pub Keeps-if :
        {c : ℕ} (b : Bool) {m n : Exec E (St h) A}
        → Keeps lo c m
        → Keeps lo c n
        → Keeps lo c (if b then m else n)
    Keeps-if true km kn = km
    Keeps-if false km kn = kn

    pub Keeps-mapped :
        {F : Type 0} {c : ℕ} (f : F → E) {m : Exec F (St h) A}
        → Keeps lo c m
        → Keeps lo c (mapped f m)
    unfolding mapped
    Keeps-mapped f km = record { at = km.at }

    pub Keeps-attempt :
        {F : Type 0} {c : ℕ} {m : Exec F (St h) A} → Keeps lo c m → Keeps {E = E} lo c (attempt m)
    unfolding attempt
    Keeps-attempt km = record { at = km.at }

  module _ {E A B : Type 0} {lo d : ℕ} where
    Keeps-continue :
        (r : Result E A) {f : A → Exec E (St h) B}
        → ((a : A) → Keeps lo d (f a))
        → Keeps lo d (continue r f)
    Keeps-continue (ok a) kf = kf a
    Keeps-continue (err e) kf = record {
      at = λ s k r. Room-less lo k r (omega arith) (omega arith);
    }

    pub Keeps-bind :
        {c : ℕ} {m : Exec E (St h) A} {f : A → Exec E (St h) B}
        → Keeps lo c m
        → ((a : A) → Keeps lo d (f a))
        → Keeps lo (c + d) (m >>= f)
    unfolding ◌>>=◌
    Keeps-bind {m} km kf = record {
      at = λ s k r.
          (Keeps-continue (m s).0 kf).at (m s).1 k
            (km.at s (d + k) (Room-less lo _ r (omega arith) (omega arith)));
    }

    pub Keeps-then :
        {c : ℕ} {m : Exec E (St h) A} {n : Exec E (St h) B}
        → Keeps lo c m
        → Keeps lo d n
        → Keeps lo (c + d) (m >> n)
    unfolding ◌>>◌
    Keeps-then {m} km kn = record {
      at = λ s k r.
          (Keeps-continue (m s).0 (λ _. kn)).at (m s).1 k
            (km.at s (d + k) (Room-less lo _ r (omega arith) (omega arith)));
    }

    Keeps-continue_of :
        {P : A → Type 0} (r : Result E A) {f : A → Exec E (St h) B}
        → ((a : A) → r ≡ ok a → P a)
        → ((a : A) → P a → Keeps lo d (f a))
        → Keeps lo d (continue r f)
    Keeps-continue_of (ok a) p kf = kf a (p a refl)
    Keeps-continue_of (err e) p kf = record {
      at = λ s k r. Room-less lo k r (omega arith) (omega arith);
    }

    -- The rest may rely on what is known of the results of `m`.
    pub Keeps-bind_of :
        {c : ℕ} (P : A → Type 0) {m : Exec E (St h) A} {f : A → Exec E (St h) B}
        → ((s : St h) (a : A) → (m s).0 ≡ ok a → P a)
        → Keeps lo c m
        → ((a : A) → P a → Keeps lo d (f a))
        → Keeps lo (c + d) (m >>= f)
    unfolding ◌>>=◌
    Keeps-bind_of P {m} p km kf = record {
      at = λ s k r.
          (Keeps-continue_of {P = P} (m s).0 (p s) kf).at (m s).1 k
            (km.at s (d + k) (Room-less lo _ r (omega arith) (omega arith)));
    }
