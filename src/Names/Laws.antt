-- ===== src/Names/Laws.antt =====
-- Splitting and joining remote paths, and which names can be shown.
use unidrive_mount_linux.Names.{parent_prefix, basename, is_representable_component, child_path}
use unidrive_mount_linux.Base.{
  ℕ, suc, ◌≤◌, ◌≡◌, refl, ap, ◌∙◌, ◌≢◌, ◌↔◌, true, false, none, some, [], ◌∷◌, ◌++◌, arith,
  contains, list_eq, nat_eq, length, take-append, drop-append_past, Str, str, slash, rfind,
  after_match, rfind-append,
}

rfind_of_absent : (c : ℕ) (s : Str) → contains s c ≡ false → rfind c s ≡ none
unfolding rfind
rfind_of_absent c [] h = refl
rfind_of_absent c (d ∷ s) h = ground (arith, rfind_of_absent c s)

-- Where the normalised name holds no `/`, a child's path leads back to its parent and to its
-- normalised name.
pub parent_prefix-child_path :
    (nfc : Str → Str) (parent name : Str)
    → contains (nfc name) slash ≡ false
    → (parent_prefix (child_path nfc parent name) ≡ parent)
      × (basename (child_path nfc parent name) ≡ nfc name)
unfolding parent_prefix basename child_path
parent_prefix-child_path nfc [] name h =
    let e : rfind slash (slash ∷ nfc name) ≡ some 0 =
      rfind-append slash [] (nfc name) ∙ ap (after_match 0) (rfind_of_absent slash (nfc name) h) in
    (rw (e, parent_prefix), rw (e, basename))
parent_prefix-child_path nfc (c ∷ parent) name h =
    let e : rfind slash ((c ∷ parent) ++ (slash ∷ nfc name)) ≡ some (suc (length parent)) =
      rfind-append slash (c ∷ parent) (nfc name)
      ∙ ap (after_match (suc (length parent))) (rfind_of_absent slash (nfc name) h) in
    (
      rw (e, parent_prefix) (take-append (c ∷ parent) (slash ∷ nfc name)),
      rw (e, basename) (drop-append_past (c ∷ parent) slash (nfc name)),
    )

pub child_path-ne-root : (nfc : Str → Str) (parent name : Str) → child_path nfc parent name ≢ []
unfolding child_path
child_path-ne-root nfc [] name h = cc
child_path-ne-root nfc (c ∷ parent) name h = cc

-- A name is shown exactly when it is not empty, not `.` or `..`, holds no `/` and no NUL, and has
-- at most 255 bytes.
pub is_representable_component_iff :
    (name : Str)
    → (is_representable_component name ≡ true) ↔ (
        (name ≢ [])
        × (name ≢ str ".")
        × (name ≢ str "..")
        × (contains name slash ≡ false)
        × (contains name 0 ≡ false)
        × (length name ≤ 255))
unfolding is_representable_component
is_representable_component_iff [] = (λ h. cc, λ h. absurd (h.0 refl))
is_representable_component_iff (c ∷ name) = (
  λ h. (λ e. cc, λ e. ground arith, λ e. ground arith, ground arith, ground arith, ground arith),
  λ (a, b, d, e, f, g). ground arith,
)
