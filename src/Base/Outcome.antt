-- ===== src/Base/Outcome.antt =====
-- Go errors, panics, and code that reads and writes a state and may fail.
use Prim.Native.String.{String}
use mathlib.Core.Path.{◌≡◌, refl}
use mathlib.Core.Logic.{◌⊎◌, inl, inr, ◌≢◌}
use mathlib.Core.Option.{Option, none, some}

-- An `error` value: one made from a message, the two that package io names, and the
-- `*common.PipeError` of common/common.go, which wraps the error of the read.
pub data Err : Type 0 where
  msg : String → Err
  eof unexpected_eof : Err
  pipe_error : Err → Err

-- `err.Error()`; a PipeError shows its own message.
abbrev pub error_text : Err → String
error_text (msg s) = s
error_text eof = "EOF"
error_text unexpected_eof = "unexpected EOF"
error_text (pipe_error e) = "Pipe error during envelope read"

-- The `(value, error)` pair of a library call.
pub data Except {ℓ} (A : Type ℓ) : Type ℓ where
  done : A → Except A
  fail : Err → Except A

-- The outcome of Go code: a value, an error that it returns, or a panic.
pub data Result {ℓ} (A : Type ℓ) : Type ℓ where
  ok : A → Result A
  err : Err → Result A
  panic : Result A

pub Except-cases {ℓ} :
    {A : Type ℓ} (x : Except A) → ((a : A) × (x ≡ done a)) ⊎ ((e : Err) × (x ≡ fail e))
Except-cases (done a) = inl (a, refl)
Except-cases (fail e) = inr (e, refl)

abbrev pub Exec {ℓ} : Type ℓ → Type ℓ → Type ℓ
Exec S A = S → Result A × S

module _ {ℓ} {S A : Type ℓ} where
  abbrev pub pure : A → Exec S A
  pure a s = (ok a, s)

  abbrev pub raise : Err → Exec S A
  raise e s = (err e, s)

  abbrev pub crash : Exec S A
  crash s = (panic, s)

  abbrev pub lift : Except A → Exec S A
  lift (done a) s = (ok a, s)
  lift (fail e) s = (err e, s)

  -- Code that touches no state.
  abbrev pub from_result : Result A → Exec S A
  from_result r s = (r, s)

  -- The value of a pointer; a nil pointer panics where a field is read through it.
  abbrev pub deref : Option A → Exec S A
  deref none s = (panic, s)
  deref (some a) s = (ok a, s)

  abbrev reify : Result A × S → Result (Except A) × S
  reify (ok a, s) = (ok (done a), s)
  reify (err e, s) = (ok (fail e), s)
  reify (panic, s) = (panic, s)

  -- The `(value, error)` pair of an action, to be tested by what follows; a panic goes on up.
  abbrev pub attempt : Exec S A → Exec S (Except A)
  attempt m s = reify (m s)

module _ {ℓ} {S A B : Type ℓ} where
  abbrev pub and_then : Result A × S → (A → Exec S B) → Result B × S
  and_then (ok a, s) f = f a s
  and_then (err e, s) f = (err e, s)
  and_then (panic, s) f = (panic, s)

  infixl 5 ◌>>=◌ ◌>>◌
  abbrev pub ◌>>=◌ : Exec S A → (A → Exec S B) → Exec S B
  ◌>>=◌ m f s = and_then (m s) f

  abbrev pub ◌>>◌ : Exec S A → Exec S B → Exec S B
  m >> n = m >>= λ _. n

-- An action that ends by an error does not succeed.
pub bind_raise-ne-ok {ℓ} :
    {S A B : Type ℓ} (m : Exec S A) (e : Err) (s : S) {b : B} {u : S}
    → (m >>= λ _. raise {A = B} e) s ≢ (ok b, u)
bind_raise-ne-ok {S} {A} {B} m e s {b} {u} = go (m s)
  where
    go : (r : Result A × S) → and_then r (λ _. raise {A = B} e) ≢ (ok b, u)
    go (ok a, t) p = cc
    go (err x, t) p = cc
    go (panic, t) p = cc

-- Inversion of a successful bind.
pub bind-eq-ok {ℓ} :
    {S A B : Type ℓ} (m : Exec S A) (f : A → Exec S B) (s u : S) {b : B}
    → (m >>= f) s ≡ (ok b, u)
    → (a : A) × (t : S) × (m s ≡ (ok a, t)) × (f a t ≡ (ok b, u))
bind-eq-ok {S} {A} {B} m f s u {b} e = go (m s) refl e
  where
    go :
        (r : Result A × S)
        → m s ≡ r
        → and_then r f ≡ (ok b, u)
        → (a : A) × (t : S) × (m s ≡ (ok a, t)) × (f a t ≡ (ok b, u))
    go (ok a, t) p q = (a, t, p, q)
    go (err x, t) p q = cc
    go (panic, t) p q = cc

-- An attempt that gives a value is an action that succeeds.
pub attempt-eq-done {ℓ} :
    {S A : Type ℓ} (m : Exec S A) (s u : S) {a : A}
    → attempt m s ≡ (ok (done a), u)
    → m s ≡ (ok a, u)
attempt-eq-done {S} {A} m s u {a} = go (m s)
  where
    go : (x : Result A × S) → attempt (λ _. x) s ≡ (ok (done a), u) → x ≡ (ok a, u)
    go (ok b, t) p = cc
    go (err e, t) p = cc
    go (panic, t) p = cc

pub lift-eq-ok {ℓ} :
    {S A : Type ℓ} (x : Except A) (s u : S) {a : A} → lift x s ≡ (ok a, u) → (x ≡ done a) × (s ≡ u)
lift-eq-ok (done b) s u p = (cc, cc)
lift-eq-ok (fail e) s u p = cc
