-- ===== src/Tests/HtmlPage.antt =====
-- A page with two elements, which the generic driver reads.
use web_checker_py.Prelude.{
  ℕ, none, some, [], ◌∷◌, ◌++◌, Text, codes, join, one_line, push_word, split_words, is_space,
  lstrip, strip, ◌==◌, nat_eq, text_eq, ok, ◌≡◌, refl, if◌then◌else◌,
}
use web_checker_py.Core.Models.{
  Availability, available, unavailable, Opportunity, is_blank, is_blank_url, make_opportunity,
  make_check_result,
}
use web_checker_py.Storage.Encoding.{read_availability}
use web_checker_py.Config.Values.{
  Items, no_items, item, name, mapping, text, lookup, only_fields, as_string, as_mapping, as_number,
}
use web_checker_py.Drivers.BcParks.Parser.Facilities.{has_fields}
use web_checker_py.Drivers.BcParks.Responses.{chunk, complete}
use web_checker_py.Drivers.GenericHtml.Rules.{
  make_source, make_rules, read_name, read_required, read_source, read_mapping, read_attributes,
  optional_source, read_rules,
}
use web_checker_py.Drivers.GenericHtml.Parser.{
  Html, one, missing, present, attribute_present, count, extract_from, extract_selected, extract_by,
  extract, read_starts_at, read_booking_url, extract_attributes, parse_opportunity,
  parse_opportunities, parse,
}
use web_checker_py.Drivers.GenericHtml.Driver.{
  PageClient, page, check_page_url, checked_page_bytes, set_header, set_headers, read_page_timeout,
  read_page_bytes, normalize_headers, parse_page_config, read_bounded, parser_error, read_page,
  check_page,
}
use web_checker_py.Tests.Data.{at_second}
use web_checker_py.Tests.Documents.{whole_numbers}
use web_checker_py.Tests.DayUseSite.{strings}

-- Two elements, with the attributes `data-id` and `data-state`
abbrev two_elements : Html
two_elements = record {
  Element = ℕ;
  select = λ html selector. some (1 ∷ 2 ∷ []);
  select_one = λ element selector. some (some element);
  attribute = λ element name. some (
      one (
        if name == codes "data-id"
        then (if element == 1 then codes "a" else codes " b ")
        else (if element == 1 then codes "open" else codes "full")));
  get_text = λ element. codes "Morning  pass";
  fromisoformat = λ s. none;
  urljoin = λ base url. some (base ++ url);
}

abbrev one_page : PageClient whole_numbers
one_page = record {
  send = λ headers timeout url. page (record {
    status_code = 200;
    url = url;
    encoding = none;
    body = chunk (codes "<html>") complete;
  });
  decode = λ encoding body. some body;
}

abbrev by_attribute : Text → Items whole_numbers
by_attribute a = item (name (codes "attribute")) (text a) no_items

abbrev states : Items whole_numbers
states =
    item (name (codes "open")) (text (codes "available"))
      (item (name (codes "full")) (text (codes "unavailable")) no_items)

abbrev rules : Items whole_numbers
rules = item (name (codes "opportunity_selector")) (text (codes ".pass")) (
    item (name (codes "id")) (mapping (by_attribute (codes "data-id"))) (
      item (name (codes "title")) (mapping no_items) (
        item (name (codes "availability")) (mapping (by_attribute (codes "data-state")))
          (item (name (codes "availability_mapping")) (mapping states) no_items))))

abbrev page_settings : Items whole_numbers
page_settings =
    item (name (codes "url")) (text (codes "http://parks.test/"))
      (item (name (codes "parser")) (mapping rules) no_items)

abbrev pass : Text → Availability → Opportunity
pass id a = record {
  id = id;
  title = codes "Morning pass";
  availability = a;
  starts_at = none;
  booking_url = none;
  attributes = [];
}

reports_two :
    check_page two_elements one_page strings (at_second 5) page_settings
    ≡ ok (record {
      checked_at = at_second 5;
      opportunities = pass (codes "a") available ∷ pass (codes "b") unavailable ∷ [];
    })
unfolding check_page parse_page_config read_rules read_source read_name read_required read_mapping
    read_attributes optional_source make_source make_rules lookup only_fields has_fields as_string
    as_mapping as_number read_availability check_page_url checked_page_bytes set_header set_headers
    read_page_timeout read_page_bytes normalize_headers read_page read_bounded parse
    parse_opportunities parse_opportunity read_starts_at read_booking_url extract_attributes extract
    extract_by extract_selected extract_from attribute_present present missing one_line push_word
    split_words join count is_space strip lstrip is_blank is_blank_url make_opportunity
    make_check_result parser_error
reports_two = refl
