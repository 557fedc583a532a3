-- ===== src/Base/Dict.antt =====
-- `HashMap` as an association list. The order of a list stands for the unspecified order of an
-- iteration over the map, so what is proved for every list holds for every order.
use unidrive_mount_linux.Base.Equality.{Eq, ◌==◌, contains}
use unidrive_mount_linux.Base.Tests.{if◌then◌else◌, is_some, Option-cases}
use mathlib.Core.Logic.{inl, inr}
use mathlib.Core.Path.{◌≡◌, refl}
use mathlib.Core.Bool.{Bool}
use mathlib.Core.Option.{Option, none, some}
use mathlib.Core.List.{List, [], ◌∷◌}
use native.Mathlib.Omega.{arith}

abbrev pub Dict {ℓ κ} : Type ℓ → Type κ → Type (ℓ ⊔ κ)
Dict K V = List (K × V)

abbrev pub map_some {ℓ κ} : {V : Type ℓ} {W : Type κ} → (V → W) → Option V → Option W
map_some f none = none
map_some f (some v) = some (f v)

module _ {ℓ κ} {K : Type ℓ} {V : Type κ} ⦃e : Eq K⦄ where
  -- `HashMap::get`
  unfoldable pub lookup : K → Dict K V → Option V
  lookup k [] = none
  lookup k ((j, v) ∷ d) = if k == j then some v else lookup k d

  -- `HashMap::insert`
  unfoldable pub insert : K → V → Dict K V → Dict K V
  insert k v [] = (k, v) ∷ []
  insert k v ((j, w) ∷ d) = if k == j then (k, v) ∷ d else (j, w) ∷ insert k v d

  -- `HashMap::remove`
  unfoldable pub erase : K → Dict K V → Dict K V
  erase k [] = []
  erase k ((j, w) ∷ d) = let rest = erase k d in if k == j then rest else (j, w) ∷ rest

  -- `if let Some(v) = map.get_mut(&k) { v = f(v) }`
  unfoldable pub modify : K → (V → V) → Dict K V → Dict K V
  modify k f [] = []
  modify k f ((j, w) ∷ d) = if k == j then (j, f w) ∷ d else (j, w) ∷ modify k f d

  -- `HashMap::contains_key`
  abbrev pub contains_key : K → Dict K V → Bool
  contains_key k d = is_some (lookup k d)

  abbrev pub NodupKeys : Dict K V → Type κ
  NodupKeys [] = Unit
  NodupKeys ((k, _) ∷ d) = (lookup k d ≡ none) × NodupKeys d

  pub lookup-insert :
      (j k : K) (v : V) (d : Dict K V)
      → lookup j (insert k v d) ≡ (if j == k then some v else lookup j d)
  unfolding insert lookup
  lookup-insert j k v [] = refl
  lookup-insert j k v (_ ∷ d) = ground (arith, lookup-insert j k v d)

  pub lookup-erase :
      (j k : K) (d : Dict K V) → lookup j (erase k d) ≡ (if j == k then none else lookup j d)
  unfolding erase lookup
  lookup-erase j k [] = ground arith
  lookup-erase j k (_ ∷ d) = ground (arith, lookup-erase j k d)

  pub lookup-modify :
      (j k : K) (f : V → V) (d : Dict K V)
      → lookup j (modify k f d) ≡ (if j == k then map_some f (lookup j d) else lookup j d)
  unfolding modify lookup
  lookup-modify j k f [] = ground arith
  lookup-modify j k f (_ ∷ d) = ground (arith, lookup-modify j k f d)

  pub insert-NodupKeys : (k : K) (v : V) (d : Dict K V) → NodupKeys d → NodupKeys (insert k v d)
  unfolding insert lookup
  insert-NodupKeys k v [] _ = (refl, tt)
  insert-NodupKeys k v ((j, _) ∷ d) (fresh, u) =
      ground (arith, insert-NodupKeys k v d u, lookup-insert j k v d)

  pub erase-NodupKeys : (k : K) (d : Dict K V) → NodupKeys d → NodupKeys (erase k d)
  unfolding erase
  erase-NodupKeys k [] _ = tt
  erase-NodupKeys k ((j, _) ∷ d) (fresh, u) =
      ground (arith, erase-NodupKeys k d u, lookup-erase j k d)

  -- `HashMap::retain`, or `iter().filter`, with a test on the key
  unfoldable pub retain : (K → Bool) → Dict K V → Dict K V
  retain p [] = []
  retain p ((k, v) ∷ d) = let rest = retain p d in if p k then (k, v) ∷ rest else rest

  unfoldable pub keys : Dict K V → List K
  keys [] = []
  keys ((k, _) ∷ d) = k ∷ keys d

  -- `for k in ks { map.remove(k) }`
  unfoldable pub erase_all : List K → Dict K V → Dict K V
  erase_all [] d = d
  erase_all (k ∷ ks) d = erase_all ks (erase k d)

  pub lookup-retain :
      (p : K → Bool) (k : K) (d : Dict K V)
      → lookup k (retain p d) ≡ (if p k then lookup k d else none)
  unfolding retain lookup
  lookup-retain p k [] = ground arith
  lookup-retain p k ((j, v) ∷ d) = ground (arith, lookup-retain p k d)

  pub retain-NodupKeys : (p : K → Bool) (d : Dict K V) → NodupKeys d → NodupKeys (retain p d)
  unfolding retain
  retain-NodupKeys p [] _ = tt
  retain-NodupKeys p ((k, _) ∷ d) (fresh, u) =
      ground (arith, retain-NodupKeys p d u, lookup-retain p k d)

  pub contains-keys : (k : K) (d : Dict K V) → contains (keys d) k ≡ contains_key k d
  unfolding keys lookup
  contains-keys k [] = refl
  contains-keys k ((j, v) ∷ d) = ground (arith, contains-keys k d)

  pub lookup-erase_all :
      (k : K) (ks : List K) (d : Dict K V)
      → lookup k (erase_all ks d) ≡ (if contains ks k then none else lookup k d)
  unfolding erase_all
  lookup-erase_all k [] d = refl
  lookup-erase_all k (j ∷ ks) d =
      ground (arith, lookup-erase_all k ks (erase j d), lookup-erase k j d)

  pub erase_all-NodupKeys : (ks : List K) (d : Dict K V) → NodupKeys d → NodupKeys (erase_all ks d)
  unfolding erase_all
  erase_all-NodupKeys [] d u = u
  erase_all-NodupKeys (k ∷ ks) d u = erase_all-NodupKeys ks (erase k d) (erase-NodupKeys k d u)

  -- A key of the changed dictionary was there before.
  pub lookup_of_modify :
      (j k : K) (f : V → V) (d : Dict K V) {w : V}
      → lookup j (modify k f d) ≡ some w
      → (v : V) × (lookup j d ≡ some v)
  lookup_of_modify j k f d {w} h = elim (Option-cases (lookup j d)) [
    | inl e ↦ absurd (ground (arith, lookup-modify j k f d))
    | inr found ↦ found
  ]
