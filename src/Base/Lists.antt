-- ===== src/Base/Lists.antt =====
-- Lists measured by native numbers, under the library's names.
use Prim.Native.Nat.{ℕ, zero, suc, ◌+◌, ◌-◌, ◌≤◌}
use mathlib.Core.Path.{◌≡◌, refl, ap, ◌∙◌}
use mathlib.Core.Bool.{Bool, true, false}
use mathlib.Core.List.{List, [], ◌∷◌, ◌++◌}
use native.Mathlib.Omega.{arith}

module _ {ℓ} {A : Type ℓ} where
  abbrev pub length : List A → ℕ
  length [] = 0
  length (x ∷ xs) = suc (length xs)

  abbrev pub is_empty : List A → Bool
  is_empty [] = true
  is_empty (x ∷ xs) = false

  abbrev pub take : ℕ → List A → List A
  take zero xs = []
  take (suc n) [] = []
  take (suc n) (x ∷ xs) = x ∷ take n xs

  abbrev pub drop : ℕ → List A → List A
  drop zero xs = xs
  drop (suc n) [] = []
  drop (suc n) (x ∷ xs) = drop n xs

  abbrev pub replicate : ℕ → A → List A
  replicate zero a = []
  replicate (suc n) a = a ∷ replicate n a

  abbrev pub flatten : List (List A) → List A
  flatten [] = []
  flatten (xs ∷ xss) = xs ++ flatten xss

  abbrev pub All {κ} : (A → Type κ) → List A → Type κ
  All P [] = Unit {κ}
  All P (x ∷ xs) = P x × All P xs

module _ {ℓ} {A : Type ℓ} where
  pub length-append : (xs ys : List A) → length (xs ++ ys) ≡ length xs + length ys
  length-append [] ys = omega arith
  length-append (x ∷ xs) ys = omega (arith, length-append xs ys)

  pub take-append-drop : (n : ℕ) (xs : List A) → take n xs ++ drop n xs ≡ xs
  take-append-drop zero xs = refl
  take-append-drop (suc n) [] = refl
  take-append-drop (suc n) (x ∷ xs) = ap (λ l. x ∷ l) (take-append-drop n xs)

  pub length-take-le : (n : ℕ) (xs : List A) → length (take n xs) ≤ n
  length-take-le zero xs = omega arith
  length-take-le (suc n) [] = omega arith
  length-take-le (suc n) (x ∷ xs) = omega (arith, length-take-le n xs)

  pub take-of_length-le : (n : ℕ) (xs : List A) → length xs ≤ n → take n xs ≡ xs
  take-of_length-le zero [] h = refl
  take-of_length-le zero (x ∷ xs) h = absurd (omega arith)
  take-of_length-le (suc n) [] h = refl
  take-of_length-le (suc n) (x ∷ xs) h = ap (λ l. x ∷ l) (take-of_length-le n xs (omega arith))

  pub drop-of_length-le : (n : ℕ) (xs : List A) → length xs ≤ n → drop n xs ≡ []
  drop-of_length-le zero [] h = refl
  drop-of_length-le zero (x ∷ xs) h = absurd (omega arith)
  drop-of_length-le (suc n) [] h = refl
  drop-of_length-le (suc n) (x ∷ xs) h = drop-of_length-le n xs (omega arith)

  pub take-append_self : (xs ys : List A) → take (length xs) (xs ++ ys) ≡ xs
  take-append_self [] ys = refl
  take-append_self (x ∷ xs) ys = ap (λ l. x ∷ l) (take-append_self xs ys)

  pub drop-append_self : (xs ys : List A) → drop (length xs) (xs ++ ys) ≡ ys
  drop-append_self [] ys = refl
  drop-append_self (x ∷ xs) ys = drop-append_self xs ys

  pub length-replicate : (n : ℕ) (a : A) → length (replicate n a) ≡ n
  length-replicate zero a = refl
  length-replicate (suc n) a = ap suc (length-replicate n a)

  pub append-take-drop : (n : ℕ) (xs ys : List A) → xs ++ ys ≡ take n xs ++ (drop n xs ++ ys)
  append-take-drop zero xs ys = refl
  append-take-drop (suc n) [] ys = refl
  append-take-drop (suc n) (x ∷ xs) ys = ap (λ l. x ∷ l) (append-take-drop n xs ys)

  pub take-append_le :
      (n : ℕ) (xs ys : List A) → length xs ≤ n → take n (xs ++ ys) ≡ xs ++ take (n - length xs) ys
  take-append_le n [] ys h = ap (λ k. take k ys) (sub_zero n)
    where
      sub_zero : (a : ℕ) → a ≡ a - 0
      sub_zero a = omega arith
  take-append_le zero (x ∷ xs) ys h = absurd (omega arith)
  take-append_le (suc n) (x ∷ xs) ys h =
      ap (λ l. x ∷ l) (take-append_le n xs ys (omega arith))
      ∙ ap (λ k. x ∷ (xs ++ take k ys)) (sub_suc n (length xs))
    where
      sub_suc : (a b : ℕ) → a - b ≡ suc a - suc b
      sub_suc a b = omega arith

  pub drop-append_le :
      (n : ℕ) (xs ys : List A) → length xs ≤ n → drop n (xs ++ ys) ≡ drop (n - length xs) ys
  drop-append_le n [] ys h = ap (λ k. drop k ys) (sub_zero n)
    where
      sub_zero : (a : ℕ) → a ≡ a - 0
      sub_zero a = omega arith
  drop-append_le zero (x ∷ xs) ys h = absurd (omega arith)
  drop-append_le (suc n) (x ∷ xs) ys h =
      drop-append_le n xs ys (omega arith) ∙ ap (λ k. drop k ys) (sub_suc n (length xs))
    where
      sub_suc : (a b : ℕ) → a - b ≡ suc a - suc b
      sub_suc a b = omega arith
