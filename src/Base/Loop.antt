-- ===== src/Base/Loop.antt =====
-- `do` blocks over code that may not end: `none` is a run that goes on for ever.
use mathlib.Core.Path.{◌≡◌, refl}
use mathlib.Core.Option.{Option, none, some}
use open_acn.Base.Outcome.{Result, ok, err, panic, Exec}

abbrev pub Loop : Type 0 → Type 0 → Type 0
Loop S A = S → Option (Result A × S)

module _ {S : Type 0} where
  abbrev pub embed : {A : Type 0} → Exec S A → Loop S A
  embed m s = some (m s)

  abbrev pub endless : {A : Type 0} → Loop S A
  endless s = none

  abbrev pub and_then_loop :
      {A B : Type 0} → Option (Result A × S) → (A → Loop S B) → Option (Result B × S)
  and_then_loop none f = none
  and_then_loop (some (ok a, s)) f = f a s
  and_then_loop (some (err e, s)) f = some (err e, s)
  and_then_loop (some (panic, s)) f = some (panic, s)

  infixl 5 ◌>>=◌ ◌>>◌
  abbrev pub ◌>>=◌ : {A B : Type 0} → Loop S A → (A → Loop S B) → Loop S B
  ◌>>=◌ m f s = and_then_loop (m s) f

  abbrev pub ◌>>◌ : {A B : Type 0} → Loop S A → Loop S B → Loop S B
  m >> n = m >>= λ _. n

  -- Inversion of a bind that ends with a value.
  pub loop_bind-eq-ok :
      {A B : Type 0} (m : Loop S A) (f : A → Loop S B) (s u : S) {b : B}
      → (m >>= f) s ≡ some (ok b, u)
      → (a : A) × (t : S) × (m s ≡ some (ok a, t)) × (f a t ≡ some (ok b, u))
  loop_bind-eq-ok {A} {B} m f s u {b} e = go (m s) refl e
    where
      go :
          (x : Option (Result A × S))
          → m s ≡ x
          → and_then_loop x f ≡ some (ok b, u)
          → (a : A) × (t : S) × (m s ≡ some (ok a, t)) × (f a t ≡ some (ok b, u))
      go none p q = cc
      go (some (ok a, t)) p q = (a, t, p, q)
      go (some (err y, t)) p q = cc
      go (some (panic, t)) p q = cc
