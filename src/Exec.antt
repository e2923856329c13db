-- ===== src/Exec.antt =====
-- Methods that change shared state and may raise. What was written before a raise stays written,
-- so the state comes back beside the exception too.
use trino_management_service.Prelude.{Bool, true, false, Result, ok, err, ◌≡◌, refl, ◌⊎◌, inl, inr}

abbrev pub Exec : Type 0 → Type 0 → Type 0 → Type 0
Exec S E A = S → Result E A × S

module _ {S E A : Type 0} where
  abbrev pub pure : A → Exec S E A
  pure a s = (ok a, s)

  abbrev pub raise : E → Exec S E A
  raise e s = (err e, s)

  abbrev pub gets : (S → A) → Exec S E A
  gets f s = (ok (f s), s)

  -- An exception of a callee goes on as one of the caller's.
  abbrev pub lift : {F : Type 0} → (F → E) → Result F A → Exec S E A
  lift f (ok a) s = (ok a, s)
  lift f (err e) s = (err (f e), s)

abbrev pub modify : {S E : Type 0} → (S → S) → Exec S E (Unit {0})
modify f s = (ok tt, f s)

-- `if not test: raise e`
abbrev pub check : {S E : Type 0} → Bool → E → Exec S E (Unit {0})
check true e s = (ok tt, s)
check false e s = (err e, s)

infixl 5 ◌>>=◌ ◌>>◌
abbrev pub after : {S E A B : Type 0} → (A → Exec S E B) → Result E A × S → Result E B × S
after f (ok a, s) = f a s
after f (err e, s) = (err e, s)

abbrev pub ◌>>=◌ : {S E A B : Type 0} → Exec S E A → (A → Exec S E B) → Exec S E B
◌>>=◌ m f s = after f (m s)

abbrev pub ◌>>◌ : {S E B : Type 0} → Exec S E (Unit {0}) → Exec S E B → Exec S E B
◌>>◌ m k s = after (λ _. k) (m s)

-- To split on a call's answer and keep the equation.
pub Exec-cases :
    {S E A : Type 0} (r : Result E A × S)
    → ((x : E) × (s : S) × (r ≡ (err x, s))) ⊎ ((a : A) × (s : S) × (r ≡ (ok a, s)))
Exec-cases (err x, s) = inl (x, s, refl)
Exec-cases (ok a, s) = inr (a, s, refl)
