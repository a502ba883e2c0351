-- ===== src/Drivers/GenericHtml/Driver/Outcome.antt =====
-- How `check` of web_checker/drivers/generic_html/driver.py ends.
use web_checker_py.Prelude.{
  Anything, ℕ, ◌+◌, Bool, true, false, not, ◌&&◌, Option, none, some, List, [], ◌++◌, length, Text,
  codes, ltb, leb, Result, ok, err, some_or, map_err, Ends, Ends-bind, Ends-raise_if, Ends-some_or,
  refl, arith, text_eq,
}
use web_checker_py.Config.Values.{
  Numbers, Value, Items, no_items, item, name, no_name, get, as_string, as_mapping, as_number,
  only_fields,
}
use web_checker_py.Drivers.BcParks.Parser.Facilities.{has_fields}
use web_checker_py.Drivers.BcParks.Config.{SplitUrl, Strings}
use web_checker_py.Drivers.BcParks.Responses.{Body, complete, body_timeout, body_failed, chunk}
use web_checker_py.Drivers.GenericHtml.Rules.{HtmlError, is_blank_name, read_rules}
use web_checker_py.Drivers.GenericHtml.Driver.{
  HtmlDriverError, configuration_error, request_error, timeout_error, response_error, too_large,
  parse_error, refused_request, undecodable_body, url_error, value_error, PageExchange, page,
  no_page_in_time, no_page, refused, check_page_url, checked_page_bytes, read_page_timeout,
  read_page_bytes, normalize_headers, parse_page_config, read_bounded, read_page, page_fields,
  required_page_fields, timeout_value, bytes_value, headers_value,
}

-- A subclass of `DriverError`
abbrev pub is_driver_error : HtmlDriverError → Bool
is_driver_error refused_request = false
is_driver_error undecodable_body = false
is_driver_error url_error = false
is_driver_error (value_error e) = false
is_driver_error configuration_error = true
is_driver_error request_error = true
is_driver_error timeout_error = true
is_driver_error response_error = true
is_driver_error too_large = true
is_driver_error (parse_error e) = true

-- What a check raises: one of these, or an exception that it lets through from httpx,
-- `bytes.decode` or
-- `urljoin`, but not the `ValueError` of `CheckResult`
abbrev pub is_check_error : HtmlDriverError → Bool
is_check_error (value_error e) = false
is_check_error refused_request = true
is_check_error undecodable_body = true
is_check_error url_error = true
is_check_error configuration_error = true
is_check_error request_error = true
is_check_error timeout_error = true
is_check_error response_error = true
is_check_error too_large = true
is_check_error (parse_error e) = true

abbrev pub Safe : {A : Type 0} → Result HtmlDriverError A → Type 0
Safe r = Ends is_driver_error Anything r

-- A `DriverError` is among the exceptions of a check.
pub Safe-check :
    {A : Type 0} (r : Result HtmlDriverError A) → Safe r → Ends is_check_error Anything r
Safe-check (ok a) h = tt
Safe-check (err configuration_error) h = refl
Safe-check (err request_error) h = refl
Safe-check (err timeout_error) h = refl
Safe-check (err response_error) h = refl
Safe-check (err too_large) h = refl
Safe-check (err (parse_error e)) h = refl
Safe-check (err refused_request) h = refl
Safe-check (err undecodable_body) h = refl
Safe-check (err url_error) h = refl
Safe-check (err (value_error e)) h = h

check_page_url-Safe : (u : Option SplitUrl) → Safe (check_page_url u)
unfolding check_page_url
check_page_url-Safe none = refl
check_page_url-Safe (some u) = ground arith

checked_page_bytes-Safe : (o : Option ℕ) → Safe (checked_page_bytes o)
unfolding checked_page_bytes
checked_page_bytes-Safe none = refl
checked_page_bytes-Safe (some k) = ground arith

read_bounded-Safe : (limit : ℕ) (body : Text) (b : Body) → Safe (read_bounded limit body b)
unfolding read_bounded
read_bounded-Safe limit body complete = tt
read_bounded-Safe limit body body_timeout = refl
read_bounded-Safe limit body body_failed = refl
read_bounded-Safe limit body (chunk bytes rest) =
    Ends-raise_if is_driver_error Anything (ltb limit (length body + length bytes)) _ _ refl
      (read_bounded-Safe limit (body ++ bytes) rest)

pub read_page-Fetched :
    (limit : ℕ) (e : PageExchange) → Ends is_check_error Anything (read_page limit e)
unfolding read_page
read_page-Fetched limit no_page_in_time = refl
read_page-Fetched limit no_page = refl
read_page-Fetched limit refused = refl
read_page-Fetched limit (page response) =
    Ends-raise_if is_check_error Anything
      (not (leb 200 response.status_code && leb response.status_code 299)) _ _ refl
      (Ends-bind is_check_error Anything Anything (read_bounded limit [] response.body) _
        (Safe-check (read_bounded limit [] response.body)
          (read_bounded-Safe limit [] response.body))
        (λ body k. tt))

rules-Safe : {A : Type 0} (r : Result HtmlError A) → Safe (map_err (λ e. configuration_error) r)
rules-Safe (ok a) = tt
rules-Safe (err e) = refl

module _ {n : Numbers} where
  read_page_timeout-Safe : (v : Value n) → Safe (read_page_timeout v)
  unfolding read_page_timeout
  read_page_timeout-Safe v =
      Ends-bind is_driver_error _ Anything (some_or configuration_error (as_number v)) _
        (Ends-some_or is_driver_error configuration_error (as_number v) refl) (λ x k. ground arith)

  read_page_bytes-Safe : (v : Value n) → Safe (read_page_bytes v)
  unfolding read_page_bytes
  read_page_bytes-Safe v =
      Ends-bind is_driver_error _ Anything (some_or configuration_error (as_number v)) _
        (Ends-some_or is_driver_error configuration_error (as_number v) refl)
        (λ x k. checked_page_bytes-Safe (n.whole x))

  normalize_headers-Safe :
      (items : Items n) (headers : List (Text × Text)) → Safe (normalize_headers items headers)
  unfolding normalize_headers
  normalize_headers-Safe no_items headers = tt
  normalize_headers-Safe (item no_name v rest) headers = refl
  normalize_headers-Safe (item (name key) v rest) headers =
      Ends-raise_if is_driver_error Anything (is_blank_name key) _ _ refl (
        Ends-bind is_driver_error _ Anything (some_or configuration_error (as_string v)) _
          (Ends-some_or is_driver_error configuration_error (as_string v) refl)
          (λ value k.
            Ends-raise_if is_driver_error Anything (is_blank_name value) _ _ refl
              (normalize_headers-Safe rest _)))

  pub parse_page_config-Safe : (s : Strings) (items : Items n) → Safe (parse_page_config s items)
  unfolding parse_page_config
  parse_page_config-Safe s items =
      Ends-raise_if is_driver_error Anything (not (only_fields page_fields items)) _ _ refl (
        Ends-raise_if is_driver_error Anything (not (has_fields required_page_fields items)) _ _
          refl
          (Ends-bind is_driver_error Anything Anything
            (map_err (λ e. configuration_error) (read_rules (get (codes "parser") items))) _
            (rules-Safe (read_rules (get (codes "parser") items)))
            λ rules k1.
              Ends-bind is_driver_error _ Anything
                (some_or configuration_error (as_string (get (codes "url") items))) _
                (Ends-some_or is_driver_error configuration_error _ refl)
                λ url k2.
                  Ends-bind is_driver_error Anything Anything (check_page_url (s.urlsplit url)) _
                    (check_page_url-Safe (s.urlsplit url))
                    λ checked k3.
                      Ends-bind is_driver_error Anything Anything
                        (read_page_timeout (timeout_value items)) _
                        (read_page_timeout-Safe (timeout_value items))
                        λ seconds k4.
                          Ends-bind is_driver_error Anything Anything
                            (read_page_bytes (bytes_value items)) _
                            (read_page_bytes-Safe (bytes_value items))
                            λ bytes k5.
                              Ends-bind is_driver_error _ Anything
                                (some_or configuration_error (as_mapping (headers_value items))) _
                                (Ends-some_or is_driver_error configuration_error _ refl)
                                λ raw_headers k6.
                                  Ends-bind is_driver_error Anything Anything
                                    (normalize_headers raw_headers []) _
                                    (normalize_headers-Safe raw_headers []) λ headers k7. tt))
