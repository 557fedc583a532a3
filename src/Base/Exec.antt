-- ===== src/Base/Exec.antt =====
-- Handlers change the state and may fail; what was written before a failure stays written, so the
-- state comes back beside the error too.
use mathlib.Core.Logic.{◌⊎◌, inl, inr}
use mathlib.Core.Path.{◌≡◌, refl}
use mathlib.Core.Option.{Option, none, some}

pub data Result {ℓ} (E A : Type ℓ) : Type ℓ where
  ok : A → Result E A
  err : E → Result E A

abbrev pub Exec {ℓ} : Type ℓ → Type ℓ → Type ℓ → Type ℓ
Exec E S A = S → Result E A × S

module _ {ℓ} {E S A : Type ℓ} where
  unfoldable pub pure : A → Exec E S A
  pure a s = (ok a, s)

  unfoldable pub raise : E → Exec E S A
  raise e s = (err e, s)

  -- `Option::ok_or_else(|| e)?`
  unfoldable pub expect_some : E → Option A → Exec E S A
  expect_some e none s = (err e, s)
  expect_some e (some a) s = (ok a, s)

-- `Result::map_err(f)`
abbrev pub map_err {ℓ} : {E F A : Type ℓ} → (F → E) → Result F A → Result E A
map_err f (ok a) = ok a
map_err f (err e) = err (f e)

module _ {ℓ} {E S A B : Type ℓ} where
  abbrev pub continue : Result E A → (A → Exec E S B) → Exec E S B
  continue (ok a) f s = f a s
  continue (err e) f s = (err e, s)

  infixl 10 ◌>>=◌ ◌>>◌
  unfoldable pub ◌>>=◌ : Exec E S A → (A → Exec E S B) → Exec E S B
  ◌>>=◌ m f s = let (r, s') = m s in continue r f s'

  unfoldable pub ◌>>◌ : Exec E S A → Exec E S B → Exec E S B
  ◌>>◌ m n s = let (r, s') = m s in continue r (λ _. n) s'

-- `.map_err(f)?`
unfoldable pub mapped {ℓ} : {E F S A : Type ℓ} → (F → E) → Exec F S A → Exec E S A
mapped f m s = let (r, s') = m s in (map_err f r, s')

-- A call whose error is looked at, and not passed on.
unfoldable pub attempt {ℓ} : {E F S A : Type ℓ} → Exec F S A → Exec E S (Result F A)
attempt m s = let (r, s') = m s in (ok r, s')

pub Result-cases {ℓ} :
    {E A : Type ℓ} (r : Result E A) → ((a : A) × (r ≡ ok a)) ⊎ ((e : E) × (r ≡ err e))
Result-cases (ok a) = inl (a, refl)
Result-cases (err e) = inr (e, refl)

module _ {ℓ} {E S A B : Type ℓ} where
  continue-eq_ok :
      (r : Result E A) (f : A → Exec E S B) (s : S) {b : B}
      → (continue r f s).0 ≡ ok b
      → (a : A) × (r ≡ ok a) × ((f a s).0 ≡ ok b)
  continue-eq_ok (ok a) f s q = (a, refl, q)
  continue-eq_ok (err e) f s q = absurd (cc)

  -- A chain that returned: its first step did, and the rest did on what it returned.
  pub bind-eq_ok :
      (m : Exec E S A) (f : A → Exec E S B) (s : S) {b : B}
      → ((m >>= f) s).0 ≡ ok b
      → (a : A) × ((m s).0 ≡ ok a) × ((f a (m s).1).0 ≡ ok b)
  unfolding ◌>>=◌
  bind-eq_ok m f s q = continue-eq_ok (m s).0 f (m s).1 q

  -- A chain whose first step succeeded goes on from the state after it.
  pub bind-ok :
      (m : Exec E S A) (f : A → Exec E S B) {s s' : S} {a : A}
      → m s ≡ (ok a, s')
      → (m >>= f) s ≡ f a s'
  unfolding ◌>>=◌
  bind-ok m f e = rw (e, ◌>>=◌) refl

  pub then-ok :
      (m : Exec E S A) (n : Exec E S B) {s s' : S} {a : A} → m s ≡ (ok a, s') → (m >> n) s ≡ n s'
  unfolding ◌>>◌
  then-ok m n e = rw (e, ◌>>◌) refl
