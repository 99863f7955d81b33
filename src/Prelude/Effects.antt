-- ===== src/Prelude/Effects.antt =====
-- A call of the program: it reads and writes a state, and it returns or throws. What was written
-- before a throw stays written.
use mathlib.Core.Path.{◌≡◌, refl, sym, subst}
use mathlib.Core.Bool.{Bool}
use mathlib.Core.Option.{Option, none, some}
use smartmeet_backend.Prelude.Tests.{if◌then◌else◌}
use smartmeet_backend.Errors.{Failure}

pub data Result (A : Type 0) : Type 0 where
  ok : A → Result A
  err : Failure → Result A

abbrev pub Action : Type 0 → Type 0 → Type 0
Action S A = S → Result A × S

module _ {S A : Type 0} where
  abbrev pub pure : A → Action S A
  pure a s = (ok a, s)

  abbrev pub throw : Failure → Action S A
  throw e s = (err e, s)

  abbrev pub gets : (S → A) → Action S A
  gets f s = (ok (f s), s)

  abbrev pub or_throw : Option A → Failure → Action S A
  or_throw none e = throw e
  or_throw (some a) e = pure a

  -- the result of a call that reads and writes nothing
  abbrev pub from_result : Result A → Action S A
  from_result r s = (r, s)

  abbrev pub or_undo : Result A × S → S → Result A × S
  or_undo (ok a, s') s = (ok a, s')
  or_undo (err e, s') s = (err e, s)

  -- `sequelize.transaction`: a throw undoes what the body wrote
  abbrev pub transaction : Action S A → Action S A
  transaction m s = or_undo (m s) s

-- what follows a step that has ended
abbrev pub proceed : {S A B : Type 0} → Result A × S → (A → Action S B) → Result B × S
proceed (ok a, s) f = f a s
proceed (err e, s) f = (err e, s)

infixl 5 ◌>>=◌ ◌>>◌
abbrev pub ◌>>=◌ : {S A B : Type 0} → Action S A → (A → Action S B) → Action S B
◌>>=◌ m f s = proceed (m s) f

abbrev pub ◌>>◌ : {S A B : Type 0} → Action S A → Action S B → Action S B
m >> k = m >>= λ _. k

abbrev pub throw_if : {S : Type 0} → Bool → Failure → Action S (Unit {0})
throw_if c e s = (if c then err e else ok tt, s)

abbrev pub modify : {S : Type 0} → (S → S) → Action S (Unit {0})
modify f s = (ok tt, f s)

-- What holds after the first step, and is kept by the rest, holds after both.
pub proceed-keeps {ℓ} :
    {S A B : Type 0} (P : S → Type ℓ) (step : Result A × S) (f : A → Action S B)
    → P step.1
    → ((a : A) → step.0 ≡ ok a → P (f a step.1).1)
    → P (proceed step f).1
proceed-keeps P (ok a, s) f h k = k a refl
proceed-keeps P (err e, s) f h k = h

-- A call that succeeds has had a first step that succeeds.
pub proceed-eq-ok :
    {S A B : Type 0} (step : Result A × S) (f : A → Action S B) {b : B}
    → (proceed step f).0 ≡ ok b
    → (a : A) × (step.0 ≡ ok a) × ((f a step.1).0 ≡ ok b)
proceed-eq-ok (ok a, s) f h = (a, refl, h)
proceed-eq-ok (err e, s) f h = cc

-- If neither step writes when it fails, and the first never writes, the call that fails does not.
pub proceed-fails :
    {S A B : Type 0} (step : Result A × S) (f : A → Action S B) (s : S) {e : Failure}
    → step.1 ≡ s
    → ((a : A) → (f a s).0 ≡ err e → (f a s).1 ≡ s)
    → (proceed step f).0 ≡ err e
    → (proceed step f).1 ≡ s
proceed-fails (ok a, t) f s {e} same k h =
    subst (λ u. (f a u).0 ≡ err e → (f a u).1 ≡ s) (sym same) (k a) h
proceed-fails (err x, t) f s same k h = same

-- A first step that writes nothing leaves what holds to the rest.
pub proceed-reads {ℓ} :
    {S A B : Type 0} (P : S → Type ℓ) (step : Result A × S) (f : A → Action S B) (s : S)
    → P s
    → step.1 ≡ s
    → ((a : A) → P (f a s).1)
    → P (proceed step f).1
proceed-reads P (ok a, t) f s h same k = subst (λ u. P (f a u).1) (sym same) (k a)
proceed-reads P (err e, t) f s h same k = subst P (sym same) h

pub or_throw_same : {S A : Type 0} (o : Option A) (e : Failure) (s : S) → (or_throw o e s).1 ≡ s
or_throw_same none e s = refl
or_throw_same (some a) e s = refl
