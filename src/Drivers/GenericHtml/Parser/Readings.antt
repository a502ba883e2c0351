-- ===== src/Drivers/GenericHtml/Parser/Readings.antt =====
-- The opportunities that web_checker/drivers/generic_html/parser.py reads off a page.
use web_checker_py.Prelude.{
  Anything, suc, Option, none, some, List, [], ◌∷◌, All, length, Text, text_eq, Result, ok, ◌>>=◌,
  some_or, map_err, ◌≡◌, refl, sym, ap, subst, Bool-cases, inl, inr, Option-cases, Ends-some_or,
}
use web_checker_py.Time.{DateTime}
use web_checker_py.Core.Models.{
  Availability, Opportunity, Attributes, Scalar, is_blank, is_blank_url, make_opportunity,
}
use web_checker_py.Drivers.BcParks.Windows.{value_at}
use web_checker_py.Drivers.GenericHtml.Rules.{
  HtmlError, invalid_opportunity, bad_url, ValueSource, ParserConfig,
}
use web_checker_py.Drivers.GenericHtml.Parser.{
  Html, or_blank, extract, read_starts_at, read_booking_url, extract_attributes, parse_opportunity,
  parse_opportunities,
}
use web_checker_py.Drivers.GenericHtml.Parser.Tidy.{
  IsTidy, IsTidyIf, is_html_error, strip-tidy, Returns, Returns-bind, extract-Returns,
}

-- A tidy id and title, and an availability that the configured mapping has
pub record IsReading (config : ParserConfig) (o : Opportunity) : Type 0 where
  pub id : IsTidy o.id
  pub title : IsTidy o.title
  pub availability : (key : Text) × (value_at config.availability_mapping key ≡ some o.availability)

-- What `Opportunity(...)` makes of values with tidy texts
made :
    (config : ParserConfig) (id title : Option Text) (key : Text) (availability : Availability)
    (starts_at : Option DateTime) (booking_url : Option Text) (attributes : Attributes)
    → IsTidyIf id
    → IsTidyIf title
    → value_at config.availability_mapping key ≡ some availability
    → Returns (IsReading config) (
        map_err
          (λ e. invalid_opportunity)
          (make_opportunity (record {
            id = or_blank id;
            title = or_blank title;
            availability = availability;
            starts_at = starts_at;
            booking_url = booking_url;
            attributes = attributes;
          })))
unfolding make_opportunity is_blank
made config none title key availability starts_at booking_url attributes ti tt' a = refl
made config (some v) none key availability starts_at booking_url attributes ti tt' a =
    elim (Bool-cases (is_blank v)) [ inl e ↦ rw e refl | inr e ↦ rw e refl ]
made config (some v) (some w) key availability starts_at booking_url attributes ti tt' a =
    elim (Bool-cases (is_blank v)) [
      | inl e ↦ rw e refl
      | inr e ↦ elim (Bool-cases (is_blank w)) [
        | inl f ↦ rw (e, f) refl
        | inr f ↦ elim (Bool-cases (is_blank_url booking_url)) [
          | inl g ↦ rw (e, f, g) refl
          | inr g ↦
              rw (e, f, g)
                (record {
                  id = subst IsTidy (sym (strip-tidy v ti)) ti;
                  title = subst IsTidy (sym (strip-tidy w tt')) tt';
                  availability = (key, a);
                })
        ]
      ]
    ]

module _ (h : Html) where
  starts_at-Returns :
      (container : h.Element) (source : Option ValueSource)
      → Returns Anything (read_starts_at h container source)
  unfolding read_starts_at
  starts_at-Returns container none = tt
  starts_at-Returns container (some source) =
      Returns-bind IsTidyIf Anything (extract h source container) _
        (extract-Returns h source container) read
    where
      read :
          (raw : Option Text)
          → IsTidyIf raw
          → Returns Anything (elim raw as (λ r. Result HtmlError (Option DateTime)) [
            | none ↦ ok none
            | some s ↦ do d ← some_or invalid_opportunity (h.fromisoformat s); ok (some d)
          ])
      read none t = tt
      read (some s) t = elim (Option-cases (h.fromisoformat s)) [
        | inl e ↦ rw e refl
        | inr (d, e) ↦ rw e tt
      ]

  booking_url-Returns :
      (base_url : Text) (container : h.Element) (source : Option ValueSource)
      → Returns Anything (read_booking_url h base_url container source)
  unfolding read_booking_url
  booking_url-Returns base_url container none = tt
  booking_url-Returns base_url container (some source) =
      Returns-bind IsTidyIf Anything (extract h source container) _
        (extract-Returns h source container) read
    where
      read :
          (raw : Option Text)
          → IsTidyIf raw
          → Returns Anything (elim raw as (λ r. Result HtmlError (Option Text)) [
            | none ↦ ok none
            | some s ↦ do u ← some_or bad_url (h.urljoin base_url s); ok (some u)
          ])
      read none t = tt
      read (some s) t = elim (Option-cases (h.urljoin base_url s)) [
        | inl e ↦ rw e refl
        | inr (u, e) ↦ rw e tt
      ]

  attributes-Returns :
      (container : h.Element) (sources : List (Text × ValueSource))
      → Returns Anything (extract_attributes h container sources)
  unfolding extract_attributes
  attributes-Returns container [] = tt
  attributes-Returns container ((name, source) ∷ rest) =
      Returns-bind IsTidyIf Anything (extract h source container) _
        (extract-Returns h source container)
        (λ value t.
          Returns-bind Anything Anything (extract_attributes h container rest) _
            (attributes-Returns container rest) (kept value))
    where
      kept :
          (value : Option Text) (later : Attributes)
          → Anything later
          → Returns Anything (elim value as (λ r. Result HtmlError Attributes) [
            | none ↦ ok later
            | some s ↦ ok ((name, Scalar.text s) ∷ later)
          ])
      kept none later t = tt
      kept (some s) later t = tt

  parse_opportunity-Returns :
      (base_url : Text) (config : ParserConfig) (container : h.Element)
      → Returns (IsReading config) (parse_opportunity h base_url config container)
  unfolding parse_opportunity
  parse_opportunity-Returns base_url config container =
      Returns-bind IsTidyIf _ (extract h config.id container) _
        (extract-Returns h config.id container)
        λ id ti.
          Returns-bind IsTidyIf _ (extract h config.title container) _
            (extract-Returns h config.title container)
            λ title tt'.
              Returns-bind IsTidyIf _ (extract h config.availability container) _
                (extract-Returns h config.availability container)
                λ shown ta.
                  Returns-bind (λ key. shown ≡ some key) _ (some_or invalid_opportunity shown) _
                    (Ends-some_or is_html_error invalid_opportunity shown refl)
                    λ key is_shown.
                      Returns-bind (λ a. value_at config.availability_mapping key ≡ some a) _
                        (some_or invalid_opportunity (value_at config.availability_mapping key)) _
                        (Ends-some_or is_html_error invalid_opportunity
                          (value_at config.availability_mapping key) refl)
                        λ availability mapped.
                          Returns-bind Anything _ (read_starts_at h container config.starts_at) _
                            (starts_at-Returns container config.starts_at)
                            λ starts_at any_time.
                              Returns-bind Anything _
                                (read_booking_url h base_url container config.booking_url) _
                                (booking_url-Returns base_url container config.booking_url)
                                λ booking_url any_url.
                                  Returns-bind Anything _
                                    (extract_attributes h container config.attributes) _
                                    (attributes-Returns container config.attributes)
                                    λ attributes any_attributes.
                                      made config id title key availability starts_at booking_url
                                        attributes ti tt' mapped

  pub parse_opportunities-Returns :
      (base_url : Text) (config : ParserConfig) (containers : List h.Element)
      → Returns
          (λ os. All (IsReading config) os × (length os ≡ length containers))
          (parse_opportunities h base_url config containers)
  unfolding parse_opportunities
  parse_opportunities-Returns base_url config [] = (tt, refl)
  parse_opportunities-Returns base_url config (container ∷ rest) =
      Returns-bind (IsReading config) _ (parse_opportunity h base_url config container) _
        (parse_opportunity-Returns base_url config container)
        λ o reading.
          Returns-bind (λ os. All (IsReading config) os × (length os ≡ length rest)) _
            (parse_opportunities h base_url config rest) _
            (parse_opportunities-Returns base_url config rest) λ os r. ((reading, r.0), ap suc r.1)
