-- ===== src/Drivers/GenericHtml/Parser/Page.antt =====
-- The whole of `parse` in web_checker/drivers/generic_html/parser.py: one opportunity for each
-- selected element, with different ids.
use web_checker_py.Prelude.{
  ◌<◌, Bool, true, false, some, List, [], ◌∷◌, any, All, contains, is_distinct, length, Text, ltb,
  ◌==◌, text_eq, ok, ◌≡◌, refl, arith, Bool-cases, Option-cases, inl, inr, is_empty_list, ◌||◌,
  beq_refl, raise_if, ◌>>=◌, ◌>>◌,
}
use web_checker_py.Core.Models.{Opportunity, ids}
use web_checker_py.Drivers.GenericHtml.Rules.{ParserConfig, unexpected_page, invalid_opportunity}
use web_checker_py.Drivers.GenericHtml.Parser.{Html, count, parse_opportunities, parse}
use web_checker_py.Drivers.GenericHtml.Parser.Tidy.{Returns, Returns-bind}
use web_checker_py.Drivers.GenericHtml.Parser.Readings.{IsReading, parse_opportunities-Returns}

-- What is counted no time is not there.
count-absent : (x : Text) (xs : List Text) → count x xs < 1 → contains xs x ≡ false
unfolding count
count-absent x [] h = refl
count-absent x (y ∷ ys) h = elim (Bool-cases (y == x)) [
  | inl e ↦ let clash = rw e at h in ground arith
  | inr e ↦ rw e (count-absent x ys (rw e at h))
]

no_more :
    (y : Text) (ys zs : List Text)
    → any (λ i. ltb 1 (count i (y ∷ ys))) zs ≡ false
    → any (λ i. ltb 1 (count i ys)) zs ≡ false
unfolding count
no_more y ys [] h = refl
no_more y ys (z ∷ zs) h = elim (Bool-cases (y == z)) [
  | inl e ↦ let g = rw e at h in ground (arith, g, no_more y ys zs)
  | inr e ↦ let g = rw e at h in ground (arith, g, no_more y ys zs)
]

both_false : (a b : Bool) → (a || b) ≡ false → (a ≡ false) × (b ≡ false)
both_false true b h = cc
both_false false b h = (refl, h)

counted_once : (x : Text) (xs : List Text) → ltb 1 (count x (x ∷ xs)) ≡ false → count x xs < 1
unfolding count
counted_once x xs h = let g = rw (beq_refl x) at h in ground arith

-- When none is counted twice, they differ.
count-is_distinct :
    (xs : List Text) → any (λ i. ltb 1 (count i xs)) xs ≡ false → is_distinct xs ≡ true
count-is_distinct [] h = refl
count-is_distinct (x ∷ xs) h =
    let (first, later) =
      both_false (ltb 1 (count x (x ∷ xs))) (any (λ i. ltb 1 (count i (x ∷ xs))) xs) h in
    rw (count-absent x xs (counted_once x xs first)) (count-is_distinct xs (no_more x xs xs later))

-- Readings, one for each element that the page has, at least one, and with different ids
pub record IsPage (h : Html) (html : Text) (config : ParserConfig) (os : List Opportunity)
    : Type 0 where
  pub readings : All (IsReading config) os
  pub is_distinct : is_distinct (ids os) ≡ true
  pub is_full : is_empty_list os ≡ false
  pub as_many :
      (containers : List h.Element) × (h.select html config.opportunity_selector ≡ some containers)
      × (length os ≡ length containers)

full :
    {A B : Type 0} (xs : List A) (ys : List B)
    → length xs ≡ length ys
    → is_empty_list ys ≡ false
    → is_empty_list xs ≡ false
full [] [] e h = h
full [] (y ∷ ys) e h = ground arith
full (x ∷ xs) ys e h = refl

module _ (h : Html) (html base_url : Text) (config : ParserConfig) where
  containers-Returns :
      (containers : List h.Element)
      → h.select html config.opportunity_selector ≡ some containers
      → Returns (IsPage h html config) (do
        raise_if (is_empty_list containers) unexpected_page
        os ← parse_opportunities h base_url config containers
        raise_if (any (λ i. ltb 1 (count i (ids os))) (ids os)) invalid_opportunity
        ok os)
  containers-Returns containers selected = elim (Bool-cases (is_empty_list containers)) [
    | inl e ↦ rw e refl
    | inr e ↦ rw e (
        Returns-bind (λ os. All (IsReading config) os × (length os ≡ length containers)) _
          (parse_opportunities h base_url config containers) _
          (parse_opportunities-Returns h base_url config containers)
          λ os r. elim (Bool-cases (any (λ i. ltb 1 (count i (ids os))) (ids os))) [
            | inl f ↦ rw f refl
            | inr f ↦ rw f (record {
              readings = r.0;
              is_distinct = count-is_distinct (ids os) f;
              is_full = full os containers r.1 e;
              as_many = (containers, selected, r.1);
            })
          ])
  ]

  -- A parse gives the readings of a page, or raises an `HtmlParserError` or the `ValueError` of
  -- `urljoin`.
  pub parse-Returns : Returns (IsPage h html config) (parse h html base_url config)
  unfolding parse
  parse-Returns = elim (Option-cases (h.select html config.opportunity_selector)) [
    | inl e ↦ rw e refl
    | inr (containers, e) ↦ rw e (containers-Returns containers e)
  ]
