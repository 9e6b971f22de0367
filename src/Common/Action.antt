-- ===== src/Common/Action.antt =====
-- Methods that change an object and may fail. What was written before an error stays written, so
-- the object comes back beside the error too.
use mathlib.Core.Bool.{Bool, true, false}
use mathlib.Core.Path.{◌≡◌, refl}
use cofidectl.Common.Errors.{Error, Result, ok, err, panic, wrap}

abbrev pub Action : Type 0 → Type 0 → Type 0
Action S A = S → Result A × S

module _ {S A : Type 0} where
  abbrev pub pure : A → Action S A
  pure a s = (ok a, s)

  abbrev pub raise : Error → Action S A
  raise e s = (err e, s)

  abbrev pub lift : Result A → Action S A
  lift r s = (r, s)

  abbrev pub gets : (S → A) → Action S A
  gets f s = (ok (f s), s)

  -- `fmt.Errorf("…: %w", err)` round a method call.
  abbrev pub in_context : (Error → Error) → Action S A → Action S A
  in_context f m s = let (r, s') = m s in (wrap f r, s')

module _ {S : Type 0} where
  abbrev pub modify : (S → S) → Action S (Unit {0})
  modify f s = (ok tt, f s)

  -- `if b { return nil, e }`
  abbrev pub fail_if : Bool → Error → Action S (Unit {0})
  fail_if true e s = (err e, s)
  fail_if false e s = (ok tt, s)

module _ {S A B : Type 0} where
  abbrev pub continue : Result A → (A → Action S B) → Action S B
  continue (ok a) f s = f a s
  continue (err e) f s = (err e, s)
  continue panic f s = (panic, s)

  infixl 5 ◌>>=◌ ◌>>◌
  abbrev pub ◌>>=◌ : Action S A → (A → Action S B) → Action S B
  ◌>>=◌ m f s = let (r, s') = m s in continue r f s'

  abbrev pub ◌>>◌ : Action S A → Action S B → Action S B
  m >> k = m >>= λ _. k

  -- What an action did that succeeded after another one.
  pub continue-eq-ok :
      (o : Result A × S) (f : A → Action S B) {b : B} {s' : S}
      → continue o.0 f o.1 ≡ (ok b, s')
      → (a : A) × (o.0 ≡ ok a) × (f a o.1 ≡ (ok b, s'))
  continue-eq-ok (ok a, s) f h = (a, refl, h)
  continue-eq-ok (err e, s) f h = cc
  continue-eq-ok (panic, s) f h = cc
