-- ===== src/Names.antt =====
-- Remote paths and entry names in mount/src/fuse_fs.rs. Unicode normalisation (a third-party
-- crate) is the parameter `nfc`.
pub mod Laws
use unidrive_mount_linux.Base.{
  ℕ, zero, suc, ◌+◌, refl, Bool, true, false, ◌||◌, none, some, [], ◌∷◌, ◌++◌, arith, ◌==◌,
  contains, list_eq, nat_eq, length, drop, take, is_empty, ltb, if◌then◌else◌, Str, str, slash,
  rfind,
}

-- `UnidriveFs::parent_prefix`
unfoldable pub parent_prefix : Str → Str
parent_prefix child = elim (rfind slash child) [
  | none ↦ []
  | some zero ↦ []
  | some (suc i) ↦ take (suc i) child
]

-- `basename`
unfoldable pub basename : Str → Str
basename path = elim (rfind slash path) [ none ↦ path | some i ↦ drop (i + 1) path ]

-- `NAME_MAX`
abbrev pub name_max : ℕ
name_max = 255

-- `is_representable_component`
unfoldable pub is_representable_component : Str → Bool
is_representable_component name =
    if is_empty name || (name == str "." || name == str "..")
    then false
    else if contains name slash || contains name 0
    then false
    else if ltb name_max (length name)
    then false
    else true

module _ (nfc : Str → Str) where
  -- `child_path`
  unfoldable pub child_path : Str → Str → Str
  child_path parent name =
      if is_empty parent then slash ∷ nfc name else parent ++ (slash ∷ nfc name)

  -- `is_nfc_name`
  unfoldable pub is_nfc_name : Str → Bool
  is_nfc_name name = nfc name == name
