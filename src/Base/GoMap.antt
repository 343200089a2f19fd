-- ===== src/Base/GoMap.antt =====
-- Go's `map[string]V` as an association list: `m[k]`, `m[k] = v`, `delete(m, k)`, and the keys that
-- `range` goes over. Go leaves the order of `range` open; the list has one.
use Prim.Native.String.{String}
use mathlib.Core.Path.{◌≡◌}
use mathlib.Core.Option.{Option, none, some}
use mathlib.Core.Bool.{Bool, true, false}
use mathlib.Core.List.{List, [], ◌∷◌}
use native.Mathlib.Omega.{arith}
use text.Mathlib.TextEquality.{eq_iff}
use text.Mathlib.TextPositions.{eq_refl}
use open_acn.Base.Tests.{◌=ˢ◌, if◌then◌else◌}

abbrev pub GoMap {ℓ} : Type ℓ → Type ℓ
GoMap V = List (String × V)

module _ {ℓ} {V : Type ℓ} where
  -- `v, ok := m[k]`
  unfoldable pub lookup : String → GoMap V → Option V
  lookup k [] = none
  lookup k ((j, v) ∷ m) = if j =ˢ k then some v else lookup k m

  -- `delete(m, k)`
  unfoldable pub delete : String → GoMap V → GoMap V
  delete k [] = []
  delete k ((j, v) ∷ m) = let rest = delete k m in if j =ˢ k then rest else (j, v) ∷ rest

  -- `m[k] = v`
  unfoldable pub insert : String → V → GoMap V → GoMap V
  unfolding delete
  insert k v m = (k, v) ∷ delete k m

  abbrev pub is_some : Option V → Bool
  is_some none = false
  is_some (some v) = true

  unfoldable pub has : String → GoMap V → Bool
  has k m = is_some (lookup k m)

  abbrev pub keys : GoMap V → List String
  keys [] = []
  keys ((k, v) ∷ m) = k ∷ keys m

  pub lookup-delete :
      (k j : String) (m : GoMap V) → lookup j (delete k m) ≡ (if k =ˢ j then none else lookup j m)
  unfolding lookup delete
  lookup-delete k j [] = ground arith
  lookup-delete k j ((i, v) ∷ m) =
      ground (arith, lookup-delete k j m, eq_iff i k, eq_iff i j, eq_iff k j)

  pub lookup-insert :
      (k j : String) (v : V) (m : GoMap V)
      → lookup j (insert k v m) ≡ (if k =ˢ j then some v else lookup j m)
  unfolding lookup insert
  lookup-insert k j v m = ground (arith, lookup-delete k j m)

  pub lookup-insert_self : (k : String) (v : V) (m : GoMap V) → lookup k (insert k v m) ≡ some v
  lookup-insert_self k v m = simp (lookup-insert, eq_refl)

  pub lookup-delete_self : (k : String) (m : GoMap V) → lookup k (delete k m) ≡ none
  lookup-delete_self k m = simp (lookup-delete, eq_refl)

pub ruleset go_map_laws = (lookup-delete, lookup-insert)
