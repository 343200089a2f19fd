-- ===== src/Base/Stable.antt =====
-- Actions that keep a property of the state, however they end.
use mathlib.Core.Option.{Option, none, some}
use open_acn.Base.Outcome.{
  Except, done, fail, Result, ok, err, panic, Exec, and_then, pure, lift, deref, attempt, ◌>>=◌,
}

pub record Stable {S A : Type 0} (P : S → Type 0) (m : Exec S A) : Type 0 where
  pub stable : (s : S) → P s → P (m s).1

module _ {S : Type 0} (P : S → Type 0) where
  pub result-Stable : {A : Type 0} (r : Result A) → Stable P (λ s. (r, s))
  result-Stable r = record { stable = λ s p. p }

  pub lift-Stable : {A : Type 0} (x : Except A) → Stable P (lift x)
  lift-Stable (done a) = record { stable = λ s p. p }
  lift-Stable (fail e) = record { stable = λ s p. p }

  pub deref-Stable : {A : Type 0} (x : Option A) → Stable P (deref x)
  deref-Stable none = record { stable = λ s p. p }
  deref-Stable (some a) = record { stable = λ s p. p }

  pub bind-Stable :
      {A B : Type 0} (m : Exec S A) (f : A → Exec S B)
      → Stable P m
      → ((a : A) → Stable P (f a))
      → Stable P (m >>= f)
  bind-Stable {A} {B} m f h k = record { stable = λ s p. go (m s) (h.stable s p) }
    where
      go : (x : Result A × S) → P x.1 → P (and_then x f).1
      go (ok a, t) p = (k a).stable t p
      go (err e, t) p = p
      go (panic, t) p = p

  pub attempt-Stable : {A : Type 0} (m : Exec S A) → Stable P m → Stable P (attempt m)
  attempt-Stable {A} m h = record { stable = λ s p. go s (m s) (h.stable s p) }
    where
      go : (s : S) (x : Result A × S) → P x.1 → P (attempt (λ _. x) s).1
      go s (ok a, t) p = p
      go s (err e, t) p = p
      go s (panic, t) p = p

  -- An action whose error is dropped.
  pub dropped-Stable :
      {A : Type 0} (m : Exec S A) → Stable P m → Stable P (attempt m >>= λ _. pure (tt {0}))
  dropped-Stable m h =
      bind-Stable (attempt m) (λ _. pure tt) (attempt-Stable m h) (λ _. result-Stable (ok tt))
