-- ===== src/Common/Exec.antt =====
-- Methods that mutate objects and may throw: what was written before a throw stays written, so the
-- state comes back beside the error. An `async` method is read at the points where it resumes.
use campusops.Common.{◌≡◌, refl, Bool, true, false}

pub data Result {ℓ} (E A : Type ℓ) : Type ℓ where
  ok : A → Result E A
  err : E → Result E A

abbrev pub Exec {ℓ} : Type ℓ → Type ℓ → Type ℓ → Type ℓ
Exec S E A = S → Result E A × S

module _ {ℓ} {S E A : Type ℓ} where
  abbrev pub pure : A → Exec S E A
  pure a s = (ok a, s)

  abbrev pub throw : E → Exec S E A
  throw e s = (err e, s)

  abbrev pub gets : (S → A) → Exec S E A
  gets f s = (ok (f s), s)

module _ {S E : Type 0} where
  abbrev pub modify : (S → S) → Exec S E (Unit {0})
  modify f s = (ok tt, f s)

  -- `if (test) throw e`
  abbrev pub throw_if : Bool → E → Exec S E (Unit {0})
  throw_if true e s = (err e, s)
  throw_if false e s = (ok tt, s)

  -- `if (test) m`
  abbrev pub when : Bool → Exec S E (Unit {0}) → Exec S E (Unit {0})
  when true m s = m s
  when false m s = (ok tt, s)

module _ {ℓ} {S E A B : Type ℓ} where
  abbrev continue : Result E A → (A → Exec S E B) → Exec S E B
  continue (ok a) f s = f a s
  continue (err e) f s = (err e, s)

  continued :
      {r₀ : Result E A × S} (r : Result E A × S) (f : A → Exec S E B) {b : B} {t : S}
      → r₀ ≡ r
      → continue r.0 f r.1 ≡ (ok b, t)
      → (a : A) × (u : S) × (r₀ ≡ (ok a, u)) × (f a u ≡ (ok b, t))
  continued (ok a, u) f e h = (a, u, e, h)
  continued (err x, u) f e h = cc

  infixl 10 ◌>>=◌ ◌>>◌
  abbrev pub ◌>>=◌ : Exec S E A → (A → Exec S E B) → Exec S E B
  ◌>>=◌ m f s = let (r, s') = m s in continue r f s'

  abbrev pub ◌>>◌ : Exec S E A → Exec S E B → Exec S E B
  m >> n = m >>= λ _. n

  -- A sequence that returned: its first part returned, and the rest went on from there.
  pub >>=-eq-ok :
      (m : Exec S E A) (f : A → Exec S E B) (s : S) {b : B} {t : S}
      → (m >>= f) s ≡ (ok b, t)
      → (a : A) × (u : S) × (m s ≡ (ok a, u)) × (f a u ≡ (ok b, t))
  >>=-eq-ok m f s h = continued (m s) f refl h

module _ {S E : Type 0} where
  pub throw_if-eq-ok :
      (b : Bool) (e : E) (s : S) {u : Unit {0}} {t : S}
      → throw_if b e s ≡ (ok u, t)
      → (b ≡ false) × (s ≡ t)
  throw_if-eq-ok true e s h = cc
  throw_if-eq-ok false e s h = (refl, cc)
