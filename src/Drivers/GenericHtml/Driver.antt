-- ===== src/Drivers/GenericHtml/Driver.antt =====
-- web_checker/drivers/generic_html/driver.py: the configuration and `check`, with the exchange of
-- httpx as a parameter. Every exception of the construction of a configuration becomes a
-- `DriverConfigurationError`.
pub mod Outcome
pub mod Report
use web_checker_py.Prelude.{
  ℕ, ◌+◌, Bool, true, false, not, ◌&&◌, ◌||◌, Option, none, some, List, [], ◌∷◌, ◌++◌, length, Text,
  codes, ◌==◌, text_eq, is_nil, is_none, strip, leb, ltb, Result, ok, err, ◌>>=◌, ◌>>◌, raise_if,
  some_or, map_err, if◌then◌else◌,
}
use web_checker_py.Time.{DateTime}
use web_checker_py.Core.Models.{Opportunity, CheckResult, ValueError, make_check_result}
use web_checker_py.Config.Values.{
  Numbers, Value, null, boolean, number, text, sequence, mapping, Items, no_items, item, name,
  no_name, get, get_or, only_fields, as_string, as_number, as_mapping,
}
use web_checker_py.Drivers.BcParks.Parser.Facilities.{has_fields}
use web_checker_py.Drivers.BcParks.Config.{SplitUrl, Strings}
use web_checker_py.Drivers.BcParks.Responses.{Body, complete, body_timeout, body_failed, chunk}
use web_checker_py.Drivers.GenericHtml.Rules.{
  HtmlError, bad_rules, unexpected_page, invalid_opportunity, bad_url, ParserConfig, is_blank_name,
  read_rules,
}
use web_checker_py.Drivers.GenericHtml.Parser.{Html, parse}

-- The subclasses of `DriverError` that a check raises, and the exceptions that it lets through: those
-- with which httpx refuses a request and that are no `RequestError` (`InvalidURL`, or the
-- `UnicodeEncodeError` of a header), the `LookupError` or `UnicodeError` of `bytes.decode`, the
-- `ValueError` of `urljoin`, and that of `CheckResult`.
pub data HtmlDriverError : Type 0 where
  configuration_error request_error timeout_error response_error too_large : HtmlDriverError
  parse_error : HtmlError → HtmlDriverError
  refused_request undecodable_body url_error : HtmlDriverError
  value_error : ValueError → HtmlDriverError

pub record HtmlConfig (n : Numbers) : Type 0 where
  pub url : Text
  pub rules : ParserConfig
  pub headers : List (Text × Text)
  pub timeout_seconds : n.Number
  pub max_response_bytes : ℕ

-- A response, with the URL after redirects and the encoding that httpx gives it
pub record PageResponse : Type 0 where
  pub status_code : ℕ
  pub url : Text
  pub encoding : Option Text
  pub body : Body

-- What `client.stream("GET", url)` gives: a response, a `TimeoutException`, another `RequestError`,
-- or an
-- exception of another kind
pub data PageExchange : Type 0 where
  page : PageResponse → PageExchange
  no_page_in_time no_page refused : PageExchange

-- httpx, for headers, timeout and URL, and `bytes.decode(encoding, errors="replace")`, with no value
-- where it raises: the encoding that a server names may be none of text, such as "hex".
pub record PageClient (n : Numbers) : Type 0 where
  pub send : List (Text × Text) → n.Number → Text → PageExchange
  pub decode : Text → Text → Option Text

unfoldable pub check_page_url : Option SplitUrl → Result HtmlDriverError (Unit {0})
check_page_url none = err configuration_error
check_page_url (some u) = do
  raise_if (not (u.scheme == codes "http" || u.scheme == codes "https") || is_nil u.netloc)
      configuration_error
  raise_if (not (is_none u.username) || not (is_none u.password)) configuration_error
  ok tt

-- An int within the limits
unfoldable pub checked_page_bytes : Option ℕ → Result HtmlDriverError ℕ
checked_page_bytes none = err configuration_error
checked_page_bytes (some k) = do
  raise_if (not (leb 1 k && leb k 20971520)) configuration_error
  ok k

-- `headers[key] = value`
unfoldable pub set_header : Text → Text → List (Text × Text) → List (Text × Text)
set_header key value [] = (key, value) ∷ []
set_header key value ((k, v) ∷ rest) =
    let later = set_header key value rest in if k == key then (k, value) ∷ rest else (k, v) ∷ later

-- `{**headers, **others}`
unfoldable pub set_headers : List (Text × Text) → List (Text × Text) → List (Text × Text)
set_headers [] headers = headers
set_headers ((k, v) ∷ others) headers = set_headers others (set_header k v headers)

abbrev pub required_page_fields : List Text
required_page_fields = codes "url" ∷ codes "parser" ∷ []

abbrev pub page_fields : List Text
page_fields =
    codes "url"
    ∷ codes "parser"
    ∷ codes "headers"
    ∷ codes "timeout_seconds"
    ∷ codes "max_response_bytes"
    ∷ []

module _ {n : Numbers} where
  -- `config.get(...)` of the fields that may be absent
  abbrev pub timeout_value : Items n → Value n
  timeout_value items = get_or (number (n.of_nat 10)) (codes "timeout_seconds") items

  abbrev pub bytes_value : Items n → Value n
  bytes_value items = get_or (number (n.of_nat 2097152)) (codes "max_response_bytes") items

  abbrev pub headers_value : Items n → Value n
  headers_value items = get_or (mapping no_items) (codes "headers") items

  unfoldable pub read_page_timeout : Value n → Result HtmlDriverError n.Number
  read_page_timeout v = do
    x ← some_or configuration_error (as_number v)
    raise_if (n.leq x (n.of_nat 0) || n.less (n.of_nat 120) x) configuration_error
    ok x

  unfoldable pub read_page_bytes : Value n → Result HtmlDriverError ℕ
  read_page_bytes v = do
    x ← some_or configuration_error (as_number v)
    checked_page_bytes (n.whole x)

  -- The loop over the headers, with those so far
  unfoldable pub normalize_headers :
      Items n → List (Text × Text) → Result HtmlDriverError (List (Text × Text))
  normalize_headers no_items headers = ok headers
  normalize_headers (item no_name v rest) headers = err configuration_error
  normalize_headers (item (name key) v rest) headers = do
    raise_if (is_blank_name key) configuration_error
    value ← some_or configuration_error (as_string v)
    raise_if (is_blank_name value) configuration_error
    normalize_headers rest (set_header (strip key) (strip value) headers)

  -- `_parse_config` on a mapping, with `GenericHtmlDriverConfig(...)`
  unfoldable pub parse_page_config : Strings → Items n → Result HtmlDriverError (HtmlConfig n)
  parse_page_config s items = do
    raise_if (not (only_fields page_fields items)) configuration_error
    raise_if (not (has_fields required_page_fields items)) configuration_error
    rules ← map_err (λ e. configuration_error) (read_rules (get (codes "parser") items))
    url ← some_or configuration_error (as_string (get (codes "url") items))
    checked ← check_page_url (s.urlsplit url)
    seconds ← read_page_timeout (timeout_value items)
    bytes ← read_page_bytes (bytes_value items)
    raw_headers ← some_or configuration_error (as_mapping (headers_value items))
    headers ← normalize_headers raw_headers []
    ok (record {
      url = url;
      rules = rules;
      headers = headers;
      timeout_seconds = seconds;
      max_response_bytes = bytes;
    })

-- `_read_bounded`
unfoldable pub read_bounded : ℕ → Text → Body → Result HtmlDriverError Text
read_bounded limit body complete = ok body
read_bounded limit body body_timeout = err timeout_error
read_bounded limit body body_failed = err request_error
read_bounded limit body (chunk bytes rest) = do
  raise_if (ltb limit (length body + length bytes)) too_large
  read_bounded limit (body ++ bytes) rest

-- `response.encoding or "utf-8"`
abbrev pub encoding_or_utf8 : Option Text → Text
encoding_or_utf8 none = codes "utf-8"
encoding_or_utf8 (some e) = if is_nil e then codes "utf-8" else e

-- `except HtmlParserError`; the `ValueError` of `urljoin` is none.
unfoldable pub parser_error : HtmlError → HtmlDriverError
parser_error bad_rules = parse_error bad_rules
parser_error unexpected_page = parse_error unexpected_page
parser_error invalid_opportunity = parse_error invalid_opportunity
parser_error bad_url = url_error

-- The body and the URL of a response
unfoldable pub read_page : ℕ → PageExchange → Result HtmlDriverError (Text × PageResponse)
read_page limit no_page_in_time = err timeout_error
read_page limit no_page = err request_error
read_page limit refused = err refused_request
read_page limit (page response) = do
  raise_if (not (leb 200 response.status_code && leb response.status_code 299)) response_error
  body ← read_bounded limit [] response.body
  ok (body, response)

module _ {n : Numbers} (h : Html) (client : PageClient n) where
  -- `check`, at the time of the clock
  unfoldable pub check_page : Strings → DateTime → Items n → Result HtmlDriverError CheckResult
  check_page s now items = do
    config ← parse_page_config s items
    let headers : List (Text × Text) =
        set_headers config.headers ((codes "User-Agent", codes "WebChecker/0.1") ∷ [])
    (body, response) ←
        read_page config.max_response_bytes (client.send headers config.timeout_seconds config.url)
    html ← some_or undecodable_body (client.decode (encoding_or_utf8 response.encoding) body)
    opportunities ← map_err parser_error (parse h html response.url config.rules)
    map_err value_error
        (make_check_result (record { checked_at = now; opportunities = opportunities }))
