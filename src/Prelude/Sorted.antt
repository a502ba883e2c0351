-- ===== src/Prelude/Sorted.antt =====
-- A sort keeps what holds of all elements, and puts them in order.
use mathlib.Core.Path.{◌≡◌}
use mathlib.Core.Logic.{inl, inr}
use mathlib.Core.Bool.{Bool, true, false}
use mathlib.Core.List.{List, [], ◌∷◌}
use web_checker_py.Prelude.Tests.{Bool-cases}
use web_checker_py.Prelude.Lists.{All}
use web_checker_py.Prelude.Sorting.{insert_by, order_by}

module _ {A : Type 0} (before : A → A → Bool) where
  -- No element comes before the one in front of it.
  abbrev pub IsOrdered : List A → Type 0
  IsOrdered [] = Unit
  IsOrdered (a ∷ []) = Unit
  IsOrdered (a ∷ b ∷ rest) = (before b a ≡ false) × IsOrdered (b ∷ rest)

  module _ (asymmetric : (a b : A) → before a b ≡ true → before b a ≡ false) where
    insert_by-IsOrdered : (a : A) (xs : List A) → IsOrdered xs → IsOrdered (insert_by before a xs)
    unfolding insert_by
    insert_by-IsOrdered a [] h = tt
    insert_by-IsOrdered a (b ∷ []) h = elim (Bool-cases (before b a)) [
      | inl e ↦ rw e (asymmetric b a e, tt)
      | inr e ↦ rw e (e, tt)
    ]
    insert_by-IsOrdered a (b ∷ c ∷ rest) h =
        let later = insert_by-IsOrdered a (c ∷ rest) h.1 in
        elim (Bool-cases (before b a)) [
          | inl e ↦ rw e (elim (Bool-cases (before c a)) [
            | inl f ↦ rw f (h.0, rw f at later)
            | inr f ↦ rw f (asymmetric b a e, rw f at later)
          ])
          | inr e ↦ rw e (e, h)
        ]

    pub order_by-IsOrdered : (xs : List A) → IsOrdered (order_by before xs)
    unfolding order_by
    order_by-IsOrdered [] = tt
    order_by-IsOrdered (a ∷ xs) = insert_by-IsOrdered a (order_by before xs) (order_by-IsOrdered xs)

module _ {κ} {A : Type 0} (P : A → Type κ) (before : A → A → Bool) where
  insert_by-All : (a : A) (xs : List A) → P a → All P xs → All P (insert_by before a xs)
  unfolding insert_by
  insert_by-All a [] h hs = (h, tt)
  insert_by-All a (b ∷ rest) h hs = elim (Bool-cases (before b a)) [
    | inl e ↦ rw e (hs.0, insert_by-All a rest h hs.1)
    | inr e ↦ rw e (h, hs)
  ]

  pub order_by-All : (xs : List A) → All P xs → All P (order_by before xs)
  unfolding order_by
  order_by-All [] h = tt
  order_by-All (a ∷ xs) h = insert_by-All a (order_by before xs) h.0 (order_by-All xs h.1)
