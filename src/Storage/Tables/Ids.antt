-- ===== src/Storage/Tables/Ids.antt =====
-- New ids are larger than the ids in use.
use web_checker_py.Prelude.{
  ℕ, ◌≤◌, ◌<◌, true, false, List, [], ◌∷◌, map, All, contains, ◌==◌, nat_eq, ◌≡◌, arith,
}
use web_checker_py.Storage.Tables.{max_of, next_id}

pub le-max_of : (ns : List ℕ) (n : ℕ) → contains ns n ≡ true → n ≤ max_of ns
le-max_of [] n h = ground arith
le-max_of (m ∷ ns) n h = ground (arith, le-max_of ns n)

-- An id of a table differs from the next one.
pub ne-next_id : (ns : List ℕ) (n : ℕ) → contains ns n ≡ true → (n == next_id ns) ≡ false
ne-next_id ns n h = ground (arith, le-max_of ns n h)

pub contains-next_id : (ns : List ℕ) → contains ns (next_id ns) ≡ false
contains-next_id ns = ground (arith, le-max_of ns (next_id ns))

All-lt_of_max :
    {A : Type 0} (key : A → ℕ) (xs : List A) (n : ℕ)
    → max_of (map key xs) < n
    → All (λ x. key x < n) xs
All-lt_of_max key [] n h = tt
All-lt_of_max key (x ∷ xs) n h = (omega arith, All-lt_of_max key xs n (omega arith))

pub All-lt-next_id :
    {A : Type 0} (key : A → ℕ) (xs : List A) → All (λ x. key x < next_id (map key xs)) xs
All-lt-next_id key xs = All-lt_of_max key xs (next_id (map key xs)) (omega arith)
