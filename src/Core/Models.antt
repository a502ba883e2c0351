-- ===== src/Core/Models.antt =====
-- web_checker/core/models.py. A constructor is a function that may raise; the tests on the types of
-- its arguments hold by the types here. Attributes hold what the shipped drivers put there.
use web_checker_py.Prelude.{
  ℕ, Bool, false, ◌||◌, not, Option, none, some, List, map, Text, text_eq, is_nil, is_none, strip,
  is_distinct, Result, ok, ◌>>◌, raise_if,
}
use web_checker_py.Time.{DateTime}

pub data Availability : Type 0 where
  available unavailable unknown : Availability

pub data Scalar : Type 0 where
  text : Text → Scalar
  number : ℕ → Scalar

abbrev pub Attributes : Type 0
Attributes = List (Text × Scalar)

pub record Opportunity : Type 0 where
  pub id : Text
  pub title : Text
  pub availability : Availability
  pub starts_at : Option DateTime
  pub booking_url : Option Text
  pub attributes : Attributes

pub record CheckResult : Type 0 where
  pub checked_at : DateTime
  pub opportunities : List Opportunity

pub data ValueError : Type 0 where
  blank_id blank_title blank_url naive_time duplicate_ids bad_value : ValueError

-- `not s or not s.strip()`
unfoldable pub is_blank : Text → Bool
is_blank s = is_nil s || is_nil (strip s)

unfoldable pub is_blank_url : Option Text → Bool
is_blank_url none = false
is_blank_url (some u) = is_nil (strip u)

-- `Opportunity(...)` with its `__post_init__`
unfoldable pub make_opportunity : Opportunity → Result ValueError Opportunity
unfolding is_blank is_blank_url
make_opportunity o = do
  raise_if (is_blank o.id) blank_id
  raise_if (is_blank o.title) blank_title
  raise_if (is_blank_url o.booking_url) blank_url
  ok (record o { id = strip o.id; title = strip o.title })

abbrev pub ids : List Opportunity → List Text
ids = map (λ o. o.id)

-- `CheckResult(...)` with its `__post_init__`
unfoldable pub make_check_result : CheckResult → Result ValueError CheckResult
make_check_result r = do
  raise_if (is_none r.checked_at.utcoffset) naive_time
  raise_if (not (is_distinct (ids r.opportunities))) duplicate_ids
  ok r
