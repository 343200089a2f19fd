-- ===== src/Monitor/Gauge.antt =====
-- Gauges and counters of dht/monitoring/file.go, each in a cell of a store: the service and every
-- caller that asked for one share its cell.
use open_acn.Base.{Bool, String, ℕ, zero, suc, Option, none, some, List, [], ◌∷◌, ◌++◌, length}

-- Go's float64, as the metrics use it.
pub record Float : Type 1 where
  pub F : Type 0
  pub zero_value : F
  pub one : F
  pub plus : F → F → F
  pub minus : F → F → F
  pub at_most : F → F → Bool
  -- `fmt.Sprintf("%e", v)`
  pub format : F → String

-- The pointer to a metric is the number of its cell.
abbrev pub Ref : Type 0
Ref = ℕ

module _ {A : Type 0} where
  -- `&FileGauge{}`, `&FileCounter{}` and `&FileHistogram{…}`
  unfoldable pub allocate : A → List A → Ref × List A
  allocate a cells = (length cells, cells ++ (a ∷ []))

  unfoldable pub read_cell : Ref → List A → Option A
  read_cell r [] = none
  read_cell zero (a ∷ cells) = some a
  read_cell (suc r) (a ∷ cells) = read_cell r cells

  unfoldable pub change_cell : Ref → (A → A) → List A → List A
  change_cell r f [] = []
  change_cell zero f (a ∷ cells) = f a ∷ cells
  change_cell (suc r) f (a ∷ cells) = a ∷ change_cell r f cells

module _ (float : Float) where
  open float use {F, zero_value, one, plus, minus}

  abbrev pub set_gauge : F → Ref → List F → List F
  set_gauge value r = change_cell r (λ _. value)

  abbrev pub get_gauge : Ref → List F → Option F
  get_gauge r = read_cell r

  abbrev pub add_gauge : F → Ref → List F → List F
  add_gauge count r = change_cell r (λ v. plus v count)

  abbrev pub sub_gauge : F → Ref → List F → List F
  sub_gauge count r = change_cell r (λ v. minus v count)

  abbrev pub inc_gauge : Ref → List F → List F
  inc_gauge r = add_gauge one r

  abbrev pub dec_gauge : Ref → List F → List F
  dec_gauge r = sub_gauge one r

  abbrev pub add_counter : F → Ref → List F → List F
  add_counter count r = change_cell r (λ v. plus v count)

  abbrev pub inc_counter : Ref → List F → List F
  inc_counter r = add_counter one r

  abbrev pub get_counter : Ref → List F → Option F
  get_counter r = read_cell r
