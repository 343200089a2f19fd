-- ===== src/Base/Pure.antt =====
-- `do` blocks over `Result`: Go code that touches no state.
use mathlib.Core.Path.{◌≡◌, refl}
use open_acn.Base.Outcome.{Except, done, fail, Result, ok, err, panic}

infixl 5 ◌>>=◌ ◌>>◌
abbrev pub ◌>>=◌ {ℓ κ} : {A : Type ℓ} {B : Type κ} → Result A → (A → Result B) → Result B
ok a >>= f = f a
err e >>= f = err e
panic >>= f = panic

abbrev pub ◌>>◌ {ℓ κ} : {A : Type ℓ} {B : Type κ} → Result A → Result B → Result B
m >> n = m >>= λ _. n

abbrev pub from_except {ℓ} : {A : Type ℓ} → Except A → Result A
from_except (done a) = ok a
from_except (fail e) = err e

pub from_except-eq-ok {ℓ} : {A : Type ℓ} (x : Except A) {a : A} → from_except x ≡ ok a → x ≡ done a
from_except-eq-ok (done a) e = cc
from_except-eq-ok (fail x) e = cc

-- A chain that gives a value: its first step gave one, and the rest went on from there.
pub bind-eq-ok {ℓ κ} :
    {A : Type ℓ} {B : Type κ} (first : Result A) (next : A → Result B) {out : B}
    → (first >>= next) ≡ ok out
    → (v : A) × (first ≡ ok v) × (next v ≡ ok out)
bind-eq-ok panic next given = cc
bind-eq-ok (err x) next given = cc
bind-eq-ok (ok v) next given = (v, refl, given)
