-- ===== src/Prelude/Sorting.antt =====
-- A stable sort by an order on keys, and the greatest element under it.
use mathlib.Core.Bool.{Bool}
use mathlib.Core.List.{List, [], ◌∷◌}
use mathlib.Core.Option.{Option, none, some}
use web_checker_py.Prelude.Tests.{if◌then◌else◌}

module _ {A : Type 0} (before : A → A → Bool) where
  unfoldable pub insert_by : A → List A → List A
  insert_by a [] = a ∷ []
  insert_by a (b ∷ rest) = if before b a then b ∷ insert_by a rest else a ∷ b ∷ rest

  -- `sorted`, and SQL's `ORDER BY`
  unfoldable pub order_by : List A → List A
  order_by [] = []
  order_by (a ∷ rest) = insert_by a (order_by rest)

  -- The first of the sorted elements in reverse: `ORDER BY ... DESC LIMIT 1`
  unfoldable pub latest_by : List A → Option A
  latest_by [] = none
  latest_by (a ∷ rest) = elim (latest_by rest) [
    | none ↦ some a
    | some b ↦ some (if before a b then b else a)
  ]
