-- ===== src/Cli/Roundtrip.antt =====
-- A command line that is written out is read back.
use unidrive_mount_linux.Base.{
  ◌≡◌, refl, false, ◌&&◌, not, Option, none, some, List, [], ◌∷◌, list_eq, nat_eq, is_some, Str,
}
use unidrive_mount_linux.Cli.{
  Cli, Slot, argument_of, flag_of, parse_args, parse_flags, Given, finish, takes, Env, set_slot,
  nothing_given, mount, ipc, cache, lock, ipc_token_file, profile,
}
use unidrive_mount_linux.Version.{Build}
use unidrive_mount_linux.Base.Exec.{ok}

-- Options, each with its value if it has one.
abbrev pub Options : Type 0
Options = List (Slot × Option Str)

-- The arguments that give options.
unfoldable pub flags : Options → List Str
unfolding flag_of
flags [] = []
flags ((slot, none) ∷ os) = flags os
flags ((slot, some v) ∷ os) = flag_of slot ∷ v ∷ flags os

-- The options of a configuration.
abbrev pub options : Cli → Options
options c =
    (mount, some c.mount)
    ∷ (ipc, some c.ipc)
    ∷ (cache, some c.cache)
    ∷ (lock, c.lock)
    ∷ (ipc_token_file, c.ipc_token_file)
    ∷ (profile, c.profile)
    ∷ []

set_all : Options → Given → Given
unfolding set_slot
set_all [] g = g
set_all ((slot, none) ∷ os) g = set_all os g
set_all ((slot, some v) ∷ os) g = set_all os (set_slot slot v g)

argument_of-flag_of : (s : Slot) → argument_of (flag_of s) ≡ takes s
unfolding argument_of flag_of list_eq nat_eq
argument_of-flag_of mount = refl
argument_of-flag_of ipc = refl
argument_of-flag_of cache = refl
argument_of-flag_of lock = refl
argument_of-flag_of ipc_token_file = refl
argument_of-flag_of profile = refl

parse_flags-flags :
    (b : Build) (g : Given) (os : Options) → parse_flags b g (flags os) ≡ ok (set_all os g)
unfolding flags set_all parse_flags
parse_flags-flags b g [] = refl
parse_flags-flags b g ((slot, none) ∷ os) = parse_flags-flags b g os
parse_flags-flags b g ((slot, some v) ∷ os) =
    rw (argument_of-flag_of slot, parse_flags) (parse_flags-flags b (set_slot slot v g) os)

abbrev cli_of : Str → Str → Str → Option Str → Option Str → Option Str → Cli
cli_of m i ca l t p = record {
  mount = m;
  ipc = i;
  cache = ca;
  lock = l;
  ipc_token_file = t;
  profile = p;
}

finish-cli_of :
    (e : Env) (m i ca : Str) (l t p : Option Str)
    → (is_some t && not (is_some p)) ≡ false
    → finish e (set_all (options (cli_of m i ca l t p)) nothing_given) ≡ ok (cli_of m i ca l t p)
unfolding finish set_all set_slot
finish-cli_of e m i ca none none none h = refl
finish-cli_of e m i ca none none (some p) h = refl
finish-cli_of e m i ca none (some t) none h = cc
finish-cli_of e m i ca none (some t) (some p) h = refl
finish-cli_of e m i ca (some l) none none h = refl
finish-cli_of e m i ca (some l) none (some p) h = refl
finish-cli_of e m i ca (some l) (some t) none h = cc
finish-cli_of e m i ca (some l) (some t) (some p) h = refl

-- The arguments that give every option of a configuration are read back as it, whatever its texts
-- are, if a token file comes with a profile.
pub parse_args-flags :
    (b : Build) (e : Env) (program : Str) (c : Cli)
    → (is_some c.ipc_token_file && not (is_some c.profile)) ≡ false
    → parse_args b e (program ∷ flags (options c)) ≡ ok c
unfolding parse_args
parse_args-flags b e program c p =
    rw (parse_flags-flags b nothing_given (options c), parse_args)
      (finish-cli_of e c.mount c.ipc c.cache c.lock c.ipc_token_file c.profile p)
