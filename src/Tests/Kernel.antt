-- ===== src/Tests/Kernel.antt =====
-- A kernel with one lock and one mount, for the tests of start-up.

use unidrive_mount_linux.Base.{
  ℕ, ◌≡◌, ◌≢◌, ◌⊎◌, inl, inr, refl, Bool, true, false, Option, none, some, List, list_eq, nat_eq,
  Str, str,
}
use unidrive_mount_linux.Base.Exec.{Result, ok, err}
use unidrive_mount_linux.ProfileLock.{Files}
use unidrive_mount_linux.ProfileLock.Exclusion.{IsFlock}
use unidrive_mount_linux.Reconnect.Daemon.{Pacing}
use unidrive_mount_linux.Run.{Platform, signalled}
use unidrive_mount_linux.Run.Exclusion.{IsApart}
use unidrive_mount_linux.Scanner.{Tree}
use unidrive_mount_linux.Tests.Network.{some_link, some_secrets}

-- Who holds the lock, this process or another one, and whether there is a mount.
abbrev pub Kernel : Type 0
Kernel = Option Bool × Bool

-- A process opens the file again only where it has no lock.
abbrev pub open_ours : Str → Kernel → Result ℕ Bool × Kernel
open_ours path (some true, m) = (err 24, (some true, m))
open_ours path (some false, m) = (ok true, (some false, m))
open_ours path (none, m) = (ok true, (none, m))

abbrev pub lock : Bool → Kernel → Option ℕ × Kernel
lock f (none, m) = (none, (some f, m))
lock true (some true, m) = (none, (some true, m))
lock true (some false, m) = (some 11, (some false, m))
lock false (some true, m) = (some 11, (some true, m))
lock false (some false, m) = (none, (some false, m))

abbrev pub unlock : Bool → Kernel → Kernel
unlock f (none, m) = (none, m)
unlock true (some true, m) = (none, m)
unlock true (some false, m) = (some false, m)
unlock false (some true, m) = (some true, m)
unlock false (some false, m) = (none, m)

abbrev pub some_locks : Files Kernel
some_locks = record { File = Bool; open_file = open_ours; flock = lock; close = unlock }

abbrev pub no_tree : Tree
no_tree = record {
  exists = λ p. false;
  canonicalize = λ p. none;
  read_dir = λ p. none;
  metadata = λ p. none;
  lossy = λ s. s;
}

abbrev pub some_pacing : Pacing (List Str)
some_pacing = record { now = λ w. 0; pause = λ w. w; budget = 10 }

abbrev pub some_platform : Platform
some_platform = record {
  link = some_link;
  secrets = some_secrets;
  at_startup = some_pacing;
  afterwards = some_pacing;
  Kernel = Kernel;
  files = some_locks;
  osrelease = some (str "6.12.0");
  is_root = false;
  has_runtime = true;
  tree = λ k. no_tree;
  mount_at = λ dir (h, m). (true, (h, true));
  handle_signal = λ s k. (true, k);
  wait = λ k w. (signalled, k, w);
  unmount = λ (h, m). (true, (h, false));
  drop_mount = λ (h, m). (h, false);
}

abbrev pub holder : Kernel → Option Bool
holder (h, m) = h

abbrev pub mounted : Kernel → Bool
mounted (h, m) = m

opens : (k : Kernel) → holder (open_ours (str "/l") k).1 ≡ holder k
opens (some true, m) = refl
opens (some false, m) = refl
opens (none, m) = refl

-- The file of this process is `true`.
abbrev pub Ours : Kernel → Bool → Type 0
Ours k f = f ≡ true

opened :
    (k : Kernel) (f : Bool)
    → (open_ours (str "/l") k).0 ≡ ok f
    → Ours (open_ours (str "/l") k).1 f × (holder k ≢ some f)
opened (some true, m) f o = absurd (cc)
opened (some false, m) true o = (refl, λ h. cc)
opened (some false, m) false o = absurd (let e : true ≡ false = cc in cc)
opened (none, m) true o = (refl, λ h. cc)
opened (none, m) false o = absurd (let e : true ≡ false = cc in cc)

grants :
    (k : Kernel) (f : Bool)
    → Ours k f
    → (lock f k).0 ≡ none
    → ((holder k ≡ none) ⊎ (holder k ≡ some f))
      × Ours (lock f k).1 f
      × (holder (lock f k).1 ≡ some f)
grants (none, m) f o r = (inl refl, o, refl)
grants (some true, m) true o r = (inr refl, refl, refl)
grants (some false, m) true o r = absurd (cc)
grants (some g, m) false o r = absurd (cc)

refuses :
    (k : Kernel) (f : Bool) (e : ℕ)
    → Ours k f
    → (lock f k).0 ≡ some e
    → holder (lock f k).1 ≡ holder k
refuses (none, m) f e o r = absurd (cc)
refuses (some true, m) true e o r = refl
refuses (some false, m) true e o r = refl
refuses (some g, m) false e o r = absurd (cc)

blocks : (k : Kernel) (f g : Bool) → Ours k f → holder k ≡ some g → g ≢ f → (lock f k).0 ≡ some 11
blocks (none, m) f g o h n = absurd (cc)
blocks (some false, m) true g o h n = refl
blocks (some true, m) true true o h n = absurd (n refl)
blocks (some true, m) true false o h n = absurd (cc)
blocks (some g', m) false g o h n = absurd (cc)

releases : (k : Kernel) (f : Bool) → Ours k f → holder k ≡ some f → holder (unlock f k) ≡ none
releases (none, m) f o h = absurd (cc)
releases (some true, m) true o h = refl
releases (some true, m) false o h = absurd (cc)
releases (some false, m) true o h = absurd (cc)
releases (some false, m) false o h = refl

keeps : (k : Kernel) (f : Bool) → holder k ≢ some f → holder (unlock f k) ≡ holder k
keeps (none, m) f n = refl
keeps (some true, m) true n = absurd (n refl)
keeps (some true, m) false n = refl
keeps (some false, m) true n = refl
keeps (some false, m) false n = absurd (n refl)

opens_mount : (k : Kernel) → mounted (open_ours (str "/l") k).1 ≡ mounted k
opens_mount (some true, m) = refl
opens_mount (some false, m) = refl
opens_mount (none, m) = refl

locks_mount : (f : Bool) (k : Kernel) → mounted (lock f k).1 ≡ mounted k
locks_mount f (none, m) = refl
locks_mount true (some true, m) = refl
locks_mount true (some false, m) = refl
locks_mount false (some true, m) = refl
locks_mount false (some false, m) = refl

unlocks_mount : (f : Bool) (k : Kernel) → mounted (unlock f k) ≡ mounted k
unlocks_mount f (none, m) = refl
unlocks_mount true (some true, m) = refl
unlocks_mount true (some false, m) = refl
unlocks_mount false (some true, m) = refl
unlocks_mount false (some false, m) = refl

some-IsFlock : IsFlock some_locks (str "/l") holder Ours
some-IsFlock = record {
  opens = opens;
  opened = opened;
  grants = grants;
  refuses = refuses;
  blocks = blocks;
  releases = releases;
  keeps = keeps;
}

pub some-IsApart : IsApart some_platform (str "/l") holder Ours mounted
some-IsApart = record {
  flock = some-IsFlock;
  open_mounts = opens_mount;
  flock_mounts = locks_mount;
  close_mounts = unlocks_mount;
  mount_holds = λ f dir k h. h;
  signal_holds = λ f s k h. h;
  wait_holds = λ f k w h. h;
  unmount_holds = λ f k h. h;
  drop_holds = λ f k h. h;
}
