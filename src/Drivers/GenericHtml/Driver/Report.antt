-- ===== src/Drivers/GenericHtml/Driver/Report.antt =====
-- What `check` of web_checker/drivers/generic_html/driver.py reports, or raises.
use web_checker_py.Prelude.{[], ◌∷◌, Text, codes, text_eq, ok, some, ◌≡◌}
use web_checker_py.Time.{DateTime}
use web_checker_py.Core.Models.{CheckResult}
use web_checker_py.Config.Values.{Numbers, Items}
use web_checker_py.Drivers.BcParks.Config.{Strings}
use web_checker_py.Drivers.GenericHtml.Parser.{Html}
use web_checker_py.Drivers.GenericHtml.Parser.Page.{IsPage}
use web_checker_py.Drivers.GenericHtml.Driver.{
  HtmlConfig, PageResponse, PageClient, set_headers, parse_page_config, encoding_or_utf8, read_page,
}

module _ {n : Numbers} (h : Html) (client : PageClient n) where
  -- A report at the time of the clock, of the page that was fetched with the configuration
  pub record IsPageReport (s : Strings) (now : DateTime) (items : Items n) (r : CheckResult)
      : Type 0 where
    pub config : HtmlConfig n
    pub configured : parse_page_config s items ≡ ok config
    pub response : PageResponse
    pub body : Text
    pub fetched :
        read_page config.max_response_bytes (
          client.send
            (set_headers config.headers ((codes "User-Agent", codes "WebChecker/0.1") ∷ []))
            config.timeout_seconds
            config.url)
        ≡ ok (body, response)
    pub checked_at : r.checked_at ≡ now
    pub html : Text
    pub decoded : client.decode (encoding_or_utf8 response.encoding) body ≡ some html
    pub shown : IsPage h html config.rules r.opportunities
