-- ===== src/Version.antt =====
-- mount/src/version.rs: the version that `--version` prints. What the build script puts into the
-- environment is a record.
use unidrive_mount_linux.Base.{Bool, ◌++◌, list_eq, nat_eq, if◌then◌else◌, Str, str}

pub record Build : Type 0 where
  pub version : Str
  pub commit : Str
  pub dirty : Bool
  pub tagged : Bool

-- `compose`
unfoldable pub compose : Str → Str → Bool → Bool → Str
compose version commit dirty tagged =
    if tagged
    then version
    else if dirty
    then version ++ (str "+" ++ (commit ++ str ".dirty"))
    else version ++ (str "+" ++ commit)

-- `version_string`
unfoldable pub version_string : Build → Str
unfolding compose
version_string b = compose b.version b.commit b.dirty b.tagged
