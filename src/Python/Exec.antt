-- ===== src/Python/Exec.antt =====
-- Code that reads and writes a state and may raise. The state comes back beside a raised
-- exception too.
use ticket_genius.Prelude.{Bool, true, false, Option, none, some}
use ticket_genius.Python.{Exn, Result, ok, err}

abbrev pub Exec {ℓ} : Type ℓ → Type ℓ → Type ℓ
Exec S A = S → Result A × S

module _ {ℓ} {S A : Type ℓ} where
  abbrev pub pure : A → Exec S A
  pure a s = (ok a, s)

  abbrev pub raise : Exn → Exec S A
  raise e s = (err e, s)

  -- A call that only computes.
  abbrev pub lift : Result A → Exec S A
  lift r s = (r, s)

  abbrev pub gets : (S → A) → Exec S A
  gets f s = (ok (f s), s)

  abbrev pub or_raise : Option A → Exn → Exec S A
  or_raise none e s = (err e, s)
  or_raise (some a) e s = (ok a, s)

module _ {ℓ} {S A B : Type ℓ} where
  abbrev pub continue : Result A → (A → Exec S B) → Exec S B
  continue (ok a) f s = f a s
  continue (err e) f s = (err e, s)

infixl 5 ◌>>=◌ ◌>>◌
abbrev pub ◌>>=◌ {ℓ} : {S A B : Type ℓ} → Exec S A → (A → Exec S B) → Exec S B
◌>>=◌ m f s = let (r, s') = m s in continue r f s'

abbrev pub ◌>>◌ {ℓ} : {S A B : Type ℓ} → Exec S A → Exec S B → Exec S B
m >> k = m >>= λ _. k

abbrev pub modify {ℓ} : {S : Type ℓ} → (S → S) → Exec S (Unit {ℓ})
modify f s = (ok tt, f s)

-- `if c: raise e`
abbrev pub raise_when {ℓ} : {S : Type ℓ} → Bool → Exn → Exec S (Unit {ℓ})
raise_when true e s = (err e, s)
raise_when false e s = (ok tt, s)
