-- ===== src/Storage/Tables/Order.antt =====
-- Sorting keeps rows that stand in order, and the newest row is the one with the largest id.
use web_checker_py.Prelude.{
  ℕ, ◌≤◌, ◌<◌, Bool, true, false, some, List, [], ◌∷◌, ◌++◌, All, ltb, ◌≡◌, refl, arith, subst,
  if◌then◌else◌, Option-cases, inl, inr,
}
use web_checker_py.Storage.Tables.{insert_by, order_by, latest_by}

module _ {A : Type 0} (key : A → ℕ) where
  abbrev before : A → A → Bool
  before a b = ltb (key a) (key b)

  -- Keys that do not fall.
  abbrev pub IsAscending : List A → Type 0
  IsAscending [] = Unit
  IsAscending (a ∷ []) = Unit
  IsAscending (a ∷ b ∷ rest) = (key a ≤ key b) × IsAscending (b ∷ rest)

  pub order_by-IsAscending : (rows : List A) → IsAscending rows → order_by before rows ≡ rows
  unfolding order_by insert_by
  order_by-IsAscending [] h = refl
  order_by-IsAscending (a ∷ []) h = refl
  order_by-IsAscending (a ∷ b ∷ rest) h = ground (arith, order_by-IsAscending (b ∷ rest) h.1)

  -- A row behind all others in order is the latest.
  pub latest_by-snoc :
      (rows : List A) (new : A)
      → All (λ r. key r < key new) rows
      → latest_by before (rows ++ new ∷ []) ≡ some new
  unfolding latest_by
  latest_by-snoc [] new h = refl
  latest_by-snoc (r ∷ rows) new h = rw (latest_by-snoc rows new h.1) (ground arith)

pick :
    {A : Type 0} (P : A → Type 0) (c : Bool) (a b r : A)
    → P a
    → P b
    → some (if c then b else a) ≡ some r
    → P r
pick P true a b r ha hb e = let same : b ≡ r = cc in subst P same hb
pick P false a b r ha hb e = let same : a ≡ r = cc in subst P same ha

-- The latest row is one of the rows.
pub latest_by-All :
    {A : Type 0} (P : A → Type 0) (earlier : A → A → Bool) (rows : List A) (r : A)
    → All P rows
    → latest_by earlier rows ≡ some r
    → P r
unfolding latest_by
latest_by-All P earlier [] r h e = cc
latest_by-All P earlier (a ∷ rows) r h e = elim (Option-cases (latest_by earlier rows)) [
  | inl last ↦ pick P false a a r h.0 h.0 (rw last at e)
  | inr (b, later) ↦
      pick P (earlier a b) a b r h.0 (latest_by-All P earlier rows b h.1 later) (rw later at e)
]
