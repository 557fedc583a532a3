-- ===== src/PathMap/Below.antt =====
-- Path components: what `is_same_or_below` and `is_at_or_below` of path_map.rs accept.
use unidrive_mount_linux.Base.{
  ◌≡◌, inl, inr, refl, sym, ◌∙◌, Bool, true, ◌||◌, [], ◌∷◌, ◌++◌, arith, append_assoc, append-nil,
  ◌==◌, eq_refl, nat_eq, list_eq, drop-append, Str, slash, starts_with, starts_with-append-append,
  starts_with-eq_append, append_cancel, is_empty, Bool-cases,
}
use unidrive_mount_linux.PathMap.{is_same_or_below, moved}

-- What may follow a path's name in a path that is it or lies below it.
unfoldable pub is_rest : Str → Bool
is_rest [] = true
is_rest (c ∷ r) = c == slash

append-eq_self : (a r : Str) → (a ++ r == a) ≡ is_empty r
append-eq_self a [] = ground (arith, append-nil a)
append-eq_self a (c ∷ r) =
    ground (arith, λ (p : a ++ (c ∷ r) ≡ a). append_cancel a (c ∷ r) [] (p ∙ sym (append-nil a)))

starts_with-slash : (r : Str) → (is_empty r || starts_with r (slash ∷ [])) ≡ is_rest r
unfolding starts_with is_rest
starts_with-slash [] = refl
starts_with-slash (c ∷ []) = ground arith
starts_with-slash (c ∷ d ∷ r) = ground arith

pub is_same_or_below-append : (a r : Str) → is_same_or_below a (a ++ r) ≡ is_rest r
unfolding is_same_or_below
is_same_or_below-append a r =
    ground
      (arith, append-eq_self a r, starts_with-append-append a r (slash ∷ []), starts_with-slash r)

pub is_same_or_below-split :
    (a p : Str) → is_same_or_below a p ≡ true → (r : Str) × (p ≡ a ++ r) × (is_rest r ≡ true)
unfolding is_same_or_below is_rest
is_same_or_below-split a p h = elim (Bool-cases (starts_with p (a ++ (slash ∷ [])))) [
  | inl s ↦
      let (r, e) = starts_with-eq_append p (a ++ (slash ∷ [])) s in
      (slash ∷ r, e ∙ append_assoc a (slash ∷ []) r, eq_refl slash)
  | inr n ↦ ([], ground (arith, append-nil a), refl)
]

pub moved-append : (old new_path r : Str) → moved old new_path (old ++ r) ≡ new_path ++ r
unfolding moved
moved-append old new_path r = rw drop-append
