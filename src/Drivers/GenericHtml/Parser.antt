-- ===== src/Drivers/GenericHtml/Parser.antt =====
-- `GenericHtmlParser` of web_checker/drivers/generic_html/parser.py, over the elements of the
-- parsed page.
pub mod Tidy
pub mod Page
pub mod Readings
use web_checker_py.Prelude.{
  ℕ, suc, Bool, true, false, not, Option, none, some, List, [], ◌∷◌, ◌++◌, map, any, Text, ◌==◌,
  text_eq, ltb, is_nil, join, one_line, codes, Result, ok, err, ◌>>=◌, ◌>>◌, raise_if, some_or,
  map_err, if◌then◌else◌, is_empty_list,
}
use web_checker_py.Time.{DateTime}
use web_checker_py.Core.Models.{Opportunity, ValueError, Attributes, Scalar, make_opportunity, ids}
use web_checker_py.Drivers.BcParks.Windows.{value_at}
use web_checker_py.Drivers.GenericHtml.Rules.{
  HtmlError, bad_rules, unexpected_page, invalid_opportunity, bad_url, ValueSource, ParserConfig,
}

-- What `element.get(name)` gives: bs4 splits some attributes into a list.
pub data AttributeValue : Type 0 where
  one : Text → AttributeValue
  several : List Text → AttributeValue

-- bs4 on a page: `select` and `select_one` have no value where they raise `SelectorSyntaxError`;
-- `get_text(" ", strip=True)`. From the standard library `datetime.fromisoformat` and `urljoin`,
-- with no value where they raise `ValueError`.
pub record Html : Type 1 where
  pub Element : Type 0
  pub select : Text → Text → Option (List Element)
  pub select_one : Element → Text → Option (Option Element)
  pub attribute : Element → Text → Option AttributeValue
  pub get_text : Element → Text
  pub fromisoformat : Text → Option DateTime
  pub urljoin : Text → Text → Option Text

-- `_missing`
unfoldable pub missing : ValueSource → Result HtmlError (Option Text)
missing source = do raise_if source.required invalid_opportunity; ok none

-- The end of `_extract`
unfoldable pub present : ValueSource → Text → Result HtmlError (Option Text)
present source value =
    if is_nil (one_line value) then missing source else ok (some (one_line value))

-- `str(raw_value)`, or the joined list
abbrev raw_text : AttributeValue → Text
raw_text (one s) = s
raw_text (several ss) = join (codes " ") ss

unfoldable pub attribute_present :
    ValueSource → Option AttributeValue → Result HtmlError (Option Text)
attribute_present source none = missing source
attribute_present source (some raw) = present source (raw_text raw)

abbrev or_blank : Option Text → Text
or_blank none = []
or_blank (some s) = s

-- `ids.count(item)`
unfoldable pub count : Text → List Text → ℕ
count x [] = 0
count x (y ∷ ys) = let rest = count x ys in if y == x then suc rest else rest

module _ (h : Html) where
  -- The text or the attribute of an element
  unfoldable pub extract_from :
      ValueSource → h.Element → Option Text → Result HtmlError (Option Text)
  extract_from source element none = present source (h.get_text element)
  extract_from source element (some a) = attribute_present source (h.attribute element a)

  unfoldable pub extract_selected :
      ValueSource → Option (Option h.Element) → Result HtmlError (Option Text)
  extract_selected source none = err bad_rules
  extract_selected source (some none) = missing source
  extract_selected source (some (some element)) = extract_from source element source.attribute

  unfoldable pub extract_by : ValueSource → h.Element → Option Text → Result HtmlError (Option Text)
  extract_by source container none = extract_from source container source.attribute
  extract_by source container (some s) = extract_selected source (h.select_one container s)

  -- `_extract`
  unfoldable pub extract : ValueSource → h.Element → Result HtmlError (Option Text)
  extract source container = extract_by source container source.selector

  unfoldable pub read_starts_at :
      h.Element → Option ValueSource → Result HtmlError (Option DateTime)
  read_starts_at container none = ok none
  read_starts_at container (some source) = do
    raw ← extract source container
    elim raw [
      | none ↦ ok none
      | some s ↦ do d ← some_or invalid_opportunity (h.fromisoformat s); ok (some d)
    ]

  unfoldable pub read_booking_url :
      Text → h.Element → Option ValueSource → Result HtmlError (Option Text)
  read_booking_url base_url container none = ok none
  read_booking_url base_url container (some source) = do
    raw ← extract source container
    elim raw [
      | none ↦ ok none
      | some s ↦ do u ← some_or bad_url (h.urljoin base_url s); ok (some u)
    ]

  -- The dict of the attributes that are present
  unfoldable pub extract_attributes :
      h.Element → List (Text × ValueSource) → Result HtmlError Attributes
  extract_attributes container [] = ok []
  extract_attributes container ((name, source) ∷ rest) = do
    value ← extract source container
    later ← extract_attributes container rest
    elim value [ none ↦ ok later | some s ↦ ok ((name, Scalar.text s) ∷ later) ]

  -- `_parse_opportunity`. An id or title that is `None` fails the tests of `Opportunity` as an
  -- empty one does, and the mapping has no key `None`.
  unfoldable pub parse_opportunity : Text → ParserConfig → h.Element → Result HtmlError Opportunity
  parse_opportunity base_url config container = do
    id ← extract config.id container
    title ← extract config.title container
    provider_availability ← extract config.availability container
    key ← some_or invalid_opportunity provider_availability
    availability ← some_or invalid_opportunity (value_at config.availability_mapping key)
    starts_at ← read_starts_at container config.starts_at
    booking_url ← read_booking_url base_url container config.booking_url
    attributes ← extract_attributes container config.attributes
    map_err (λ e. invalid_opportunity)
        (make_opportunity (record {
          id = or_blank id;
          title = or_blank title;
          availability = availability;
          starts_at = starts_at;
          booking_url = booking_url;
          attributes = attributes;
        }))

  unfoldable pub parse_opportunities :
      Text → ParserConfig → List h.Element → Result HtmlError (List Opportunity)
  parse_opportunities base_url config [] = ok []
  parse_opportunities base_url config (container ∷ rest) = do
    o ← parse_opportunity base_url config container
    os ← parse_opportunities base_url config rest
    ok (o ∷ os)

  -- `parse`
  unfoldable pub parse : Text → Text → ParserConfig → Result HtmlError (List Opportunity)
  parse html base_url config = do
    containers ← some_or bad_rules (h.select html config.opportunity_selector)
    raise_if (is_empty_list containers) unexpected_page
    opportunities ← parse_opportunities base_url config containers
    raise_if (any (λ i. ltb 1 (count i (ids opportunities))) (ids opportunities))
        invalid_opportunity
    ok opportunities
