-- ===== src/Drivers/GenericHtml/Rules.antt =====
-- `ValueSource` and `ParserConfig` of web_checker/drivers/generic_html/parser.py with
-- `from_mapping`, and the errors of errors.py.
use web_checker_py.Prelude.{
  Bool, true, false, not, Option, none, some, List, [], ◌∷◌, ◌++◌, Text, codes, is_nil, any, strip,
  Result, ok, err, ◌>>=◌, ◌>>◌, raise_if, some_or, is_empty_list,
}
use web_checker_py.Core.Models.{Availability}
use web_checker_py.Storage.Encoding.{read_availability}
use web_checker_py.Config.Values.{
  Numbers, Value, null, boolean, number, text, sequence, mapping, Items, no_items, item, name,
  no_name, lookup, get, get_or, only_fields, as_string, as_mapping,
}
use web_checker_py.Drivers.BcParks.Parser.Facilities.{has_fields}

-- The subclasses of `HtmlParserError`, and the `ValueError` of `urljoin`, which the parser lets
-- through.
pub data HtmlError : Type 0 where
  bad_rules unexpected_page invalid_opportunity bad_url : HtmlError

pub record ValueSource : Type 0 where
  pub selector : Option Text
  pub attribute : Option Text
  pub required : Bool

pub record ParserConfig : Type 0 where
  pub opportunity_selector : Text
  pub id : ValueSource
  pub title : ValueSource
  pub availability : ValueSource
  pub availability_mapping : List (Text × Availability)
  pub starts_at : Option ValueSource
  pub booking_url : Option ValueSource
  pub attributes : List (Text × ValueSource)

abbrev pub is_blank_name : Text → Bool
is_blank_name s = is_nil (strip s)

abbrev is_blank_option : Option Text → Bool
is_blank_option none = false
is_blank_option (some s) = is_blank_name s

-- `ValueSource(...)` with its `__post_init__`
unfoldable pub make_source : ValueSource → Result HtmlError ValueSource
make_source s = do
  raise_if (is_blank_option s.selector) bad_rules
  raise_if (is_blank_option s.attribute) bad_rules
  ok s

-- `ParserConfig(...)` with its `__post_init__`
unfoldable pub make_rules : ParserConfig → Result HtmlError ParserConfig
make_rules c = do
  raise_if (is_blank_name c.opportunity_selector) bad_rules
  raise_if (is_empty_list c.availability_mapping) bad_rules
  raise_if (any (λ p. is_blank_name p.0) c.availability_mapping) bad_rules
  raise_if (any (λ p. is_blank_name p.0) c.attributes) bad_rules
  ok c

abbrev required_rules : List Text
required_rules =
    codes "opportunity_selector"
    ∷ codes "id"
    ∷ codes "title"
    ∷ codes "availability"
    ∷ codes "availability_mapping"
    ∷ []

abbrev optional_rules : List Text
optional_rules = codes "starts_at" ∷ codes "booking_url" ∷ codes "attributes" ∷ []

module _ {n : Numbers} where
  -- A selector or attribute that may be absent or null
  unfoldable pub read_name : Value n → Result HtmlError (Option Text)
  read_name null = ok none
  read_name v = do s ← some_or bad_rules (as_string v); ok (some s)

  unfoldable pub read_required : Option (Value n) → Result HtmlError Bool
  read_required none = ok true
  read_required (some (boolean b)) = ok b
  read_required (some null) = err bad_rules
  read_required (some (number x)) = err bad_rules
  read_required (some (text s)) = err bad_rules
  read_required (some (sequence vs)) = err bad_rules
  read_required (some (mapping is)) = err bad_rules

  -- `ValueSource.from_mapping`
  unfoldable pub read_source : Value n → Result HtmlError ValueSource
  read_source value = do
    items ← some_or bad_rules (as_mapping value)
    raise_if
        (not (only_fields (codes "selector" ∷ codes "attribute" ∷ codes "required" ∷ []) items))
        bad_rules
    required ← read_required (lookup (codes "required") items)
    selector ← read_name (get (codes "selector") items)
    attribute ← read_name (get (codes "attribute") items)
    make_source (record { selector = selector; attribute = attribute; required = required })

  -- The loop over `raw_mapping`
  unfoldable pub read_mapping : Items n → Result HtmlError (List (Text × Availability))
  read_mapping no_items = ok []
  read_mapping (item no_name v rest) = err bad_rules
  read_mapping (item (name key) v rest) = do
    normalized ← some_or bad_rules (as_string v)
    availability ← some_or bad_rules (read_availability normalized)
    later ← read_mapping rest
    ok ((key, availability) ∷ later)

  -- The sources of the attributes; a key that is no string is left out, and then counted.
  unfoldable pub read_attributes : Items n → Result HtmlError (List (Text × ValueSource))
  read_attributes no_items = ok []
  read_attributes (item no_name v rest) = err bad_rules
  read_attributes (item (name key) v rest) = do
    source ← read_source v
    later ← read_attributes rest
    ok ((key, source) ∷ later)

  -- `optional_source`
  unfoldable pub optional_source : Value n → Result HtmlError (Option ValueSource)
  optional_source null = ok none
  optional_source v = do source ← read_source v; ok (some source)

  -- `ParserConfig.from_mapping`
  unfoldable pub read_rules : Value n → Result HtmlError ParserConfig
  read_rules value = do
    items ← some_or bad_rules (as_mapping value)
    raise_if (not (only_fields (required_rules ++ optional_rules) items)) bad_rules
    raise_if (not (has_fields required_rules items)) bad_rules
    selector ← some_or bad_rules (as_string (get (codes "opportunity_selector") items))
    raw_mapping ← some_or bad_rules (as_mapping (get (codes "availability_mapping") items))
    availability_mapping ← read_mapping raw_mapping
    raw_attributes ←
        some_or bad_rules (as_mapping (get_or (mapping no_items) (codes "attributes") items))
    attributes ← read_attributes raw_attributes
    id ← read_source (get (codes "id") items)
    title ← read_source (get (codes "title") items)
    availability ← read_source (get (codes "availability") items)
    starts_at ← optional_source (get (codes "starts_at") items)
    booking_url ← optional_source (get (codes "booking_url") items)
    make_rules (record {
      opportunity_selector = selector;
      id = id;
      title = title;
      availability = availability;
      availability_mapping = availability_mapping;
      starts_at = starts_at;
      booking_url = booking_url;
      attributes = attributes;
    })
