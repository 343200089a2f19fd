-- ===== src/Base/Decided.antt =====
-- Steps that succeed exactly under a condition, and then with a known value and state.
use mathlib.Core.Path.{◌≡◌, refl, sym, ◌∙◌, ap, subst}
use mathlib.Core.Logic.{◌⊎◌, inl, inr, ◌≢◌}
use mathlib.Core.Bool.{Bool, true, false}
use open_acn.Base.Tests.{if◌then◌else◌}
use open_acn.Base.Outcome.{Result, ok, err, panic, Exec, and_then}

-- Under `P` the step gives `a` and `t`, and without it no value.
abbrev pub Decided : {S A : Type 0} → Type 0 → Result A × S → A → S → Type 0
Decided {A = A} P x a t = (P × (x ≡ (ok a, t))) ⊎ ((¬ P) × ((b : A) → x.0 ≢ ok b))

module _ {S : Type 0} where
  pub bind-Decided :
      {A B : Type 0} {P Q : Type 0} {x : Result A × S} (f : A → Exec S B) {t u : S} {a : A} {b : B}
      → Decided P x a t
      → Decided Q (f a t) b u
      → Decided (P × Q) (and_then x f) b u
  bind-Decided f (inl (p, e)) (inl (q, d)) = inl ((p, q), ap (λ y. and_then y f) e ∙ d)
  bind-Decided f (inl (p, e)) (inr (n, d)) =
      inr (λ h. n h.1, λ c. subst (λ y. (and_then y f).0 ≢ ok c) (sym e) (d c))
  bind-Decided {A} {B} {P} {Q} {x} f (inr (n, e)) d = inr (λ h. n h.0, stops x e)
    where
      stops : (y : Result A × S) → ((c : A) → y.0 ≢ ok c) → (c : B) → (and_then y f).0 ≢ ok c
      stops (ok v, w) h c q = absurd (h v refl)
      stops (err y, w) h c q = cc
      stops (panic, w) h c q = cc

  pub if-Decided :
      {A : Type 0} (c : Bool) (x y : Result A × S) (a : A) (t : S)
      → ((b : A) → x.0 ≢ ok b)
      → y ≡ (ok a, t)
      → Decided (c ≡ false) (if c then x else y) a t
  if-Decided true x y a t n e = inr (λ p. cc, n)
  if-Decided false x y a t n e = inl (refl, e)
