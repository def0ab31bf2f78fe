-- ===== src/Base/Handlers.antt =====
-- A handler: a step on the state that returns a value or raises an exception. What was written
-- before an exception stays written, since every repository call commits by itself.
use Prim.Native.Nat.{ℕ}
use Prim.Native.String.{String}
use mathlib.Core.Bool.{Bool, true, false}
use mathlib.Core.Option.{Option, none, some}
use mathlib.Core.Path.{◌≡◌, refl, sym, ap, ◌∙◌}

-- The HTTP exceptions, each with its message, a statement that a unique index or a check of the database
-- refuses, one that it refuses since a foreign key leads to an id without a row, and any other error, which is answered
-- as an internal one.
pub data Error : Type 0 where
  bad_request unauthorized forbidden not_found conflict internal : String → Error
  query_failed : Error
  reference_failed : ℕ → Error

pub data Result {ℓ} (A : Type ℓ) : Type ℓ where
  ok : A → Result A
  err : Error → Result A

abbrev pub Action : Type 0 → Type 0 → Type 0
Action S A = S → Result A × S

module _ {S A : Type 0} where
  abbrev pub pure : A → Action S A
  pure a s = (ok a, s)

  abbrev pub raise : Error → Action S A
  raise e s = (err e, s)

  abbrev pub gets : (S → A) → Action S A
  gets f s = (ok (f s), s)

  -- The value of a lookup, or the exception that its absence raises.
  abbrev pub or_raise : Option A → Error → Action S A
  or_raise none e = raise e
  or_raise (some a) e = pure a

infixl 5 ◌>>=◌ ◌>>◌
abbrev pub ◌>>=◌ : {S A B : Type 0} → Action S A → (A → Action S B) → Action S B
◌>>=◌ m f s = let (r, s') = m s in elim r [ ok a ↦ f a s' | err e ↦ raise e s' ]

abbrev pub ◌>>◌ : {S A B : Type 0} → Action S A → Action S B → Action S B
m >> k = m >>= λ _. k

abbrev pub raise_if : {S : Type 0} → Bool → Error → Action S (Unit {0})
raise_if true e s = (err e, s)
raise_if false e s = (ok tt, s)

abbrev pub modify : {S : Type 0} → (S → S) → Action S (Unit {0})
modify f s = (ok tt, f s)

module _ {S A B : Type 0} where
  abbrev continue : (A → Action S B) → Result A × S → Result B × S
  continue f (ok a, s) = f a s
  continue f (err e, s) = (err e, s)

  continue-bind : (m : Action S A) (f : A → Action S B) (s : S) → (m >>= f) s ≡ continue f (m s)
  continue-bind m f s = go (m s)
    where
      go : (r : Result A × S) → elim r.0 [ ok a ↦ f a r.1 | err e ↦ (err e, r.1) ] ≡ continue f r
      go (ok a, s') = refl
      go (err e, s') = refl

  -- A chain whose first part is known.
  pub bind-ok :
      (m : Action S A) (f : A → Action S B) (s : S) {a : A} {s' : S}
      → m s ≡ (ok a, s')
      → (m >>= f) s ≡ f a s'
  bind-ok m f s e = continue-bind m f s ∙ ap (continue f) e

  pub bind-err :
      (m : Action S A) (f : A → Action S B) (s : S) {x : Error} {s' : S}
      → m s ≡ (err x, s')
      → (m >>= f) s ≡ (err x, s')
  bind-err m f s e = continue-bind m f s ∙ ap (continue f) e

  -- The state that a call leaves does not depend on what is made of its value.
  pub map-state : (m : Action S A) (g : A → B) (s : S) → ((m >>= λ a. pure (g a)) s).1 ≡ (m s).1
  map-state m g s = ap (λ r. r.1) (continue-bind m (λ a. pure (g a)) s) ∙ continue-state (m s)
    where
      continue-state : (r : Result A × S) → (continue (λ a. pure (g a)) r).1 ≡ r.1
      continue-state (ok a, s') = refl
      continue-state (err e, s') = refl

  -- What the rest of a chain leaves alone is as the first part left it.
  pub bind-unchanged :
      {X : Type 0} (g : S → X) (m : Action S A) (f : A → Action S B) (s : S)
      → ((a : A) (s' : S) → g (f a s').1 ≡ g s')
      → g ((m >>= f) s).1 ≡ g (m s).1
  bind-unchanged g m f s h = ap (λ r. g r.1) (continue-bind m f s) ∙ continue_unchanged (m s)
    where
      continue_unchanged : (r : Result A × S) → g (continue f r).1 ≡ g r.1
      continue_unchanged (ok a, s') = h a s'
      continue_unchanged (err e, s') = refl

  continue-inversion :
      (f : A → Action S B) (r : Result A × S) {b : B} {s'' : S}
      → continue f r ≡ (ok b, s'')
      → (a : A) × (s' : S) × (r ≡ (ok a, s')) × (f a s' ≡ (ok b, s''))
  continue-inversion f (ok a, s') h = (a, s', refl, h)
  continue-inversion f (err e, s') h = cc

  -- A chain that returns: its first part returns, and so does the rest.
  pub bind-inversion :
      (m : Action S A) (f : A → Action S B) (s : S) {b : B} {s'' : S}
      → (m >>= f) s ≡ (ok b, s'')
      → (a : A) × (s' : S) × (m s ≡ (ok a, s')) × (f a s' ≡ (ok b, s''))
  bind-inversion m f s h = continue-inversion f (m s) (sym (continue-bind m f s) ∙ h)

module _ {S : Type 0} where
  pub raise_if-inversion :
      (b : Bool) (e : Error) (s : S) {u : Unit {0}} {s' : S}
      → raise_if b e s ≡ (ok u, s')
      → (b ≡ false) × (s' ≡ s)
  raise_if-inversion true e s h = cc
  raise_if-inversion false e s h = (refl, ap (λ r. r.1) (sym h))

-- A result that is known, beside the state that comes with it.
pub result-state : {S A : Type 0} (r : Result A × S) {a : Result A} → r.0 ≡ a → r ≡ (a, r.1)
result-state (a, s) h = ap (λ x. (x, s)) h
