-- ===== src/Drivers/GenericHtml/Parser/Tidy.antt =====
-- The texts that `_extract` of web_checker/drivers/generic_html/parser.py returns.
use mathlib.Core.List.{reverse, reverse-append, reverse-reverse}
use web_checker_py.Prelude.{
  Bool, true, false, not, ◌&&◌, Option, none, some, List, [], ◌∷◌, ◌++◌, All, Text, ◌==◌, nat_eq,
  is_nil, is_space, lstrip, strip, Result, ◌≡◌, refl, sym, ap, ◌∙◌, subst, Bool-cases, inl, inr,
  arith, if◌then◌else◌, append-nil, ◌⊎◌, ℕ, codes, join, push_word, split_words, one_line, ◌>>=◌,
  Ends, Ends-bind,
}
use web_checker_py.Drivers.GenericHtml.Rules.{
  HtmlError, bad_rules, unexpected_page, invalid_opportunity, bad_url, ValueSource,
}
use web_checker_py.Drivers.GenericHtml.Parser.{
  Html, missing, present, extract_from, AttributeValue, attribute_present, extract_selected,
  extract_by, extract,
}

-- Whether the rest of a text after a space, or after another character, is tidy
abbrev pub tidy_from : Bool → Text → Bool
tidy_from after_space [] = not after_space
tidy_from after_space (c ∷ s) =
    if is_space c then c == b' ' && (not after_space && tidy_from true s) else tidy_from false s

-- Words with one blank between two, no other white space, and at least one word
abbrev pub IsTidy : Text → Type 0
IsTidy s = tidy_from true s ≡ true

abbrev IsLetters : Text → Type 0
IsLetters w = All (λ c. is_space c ≡ false) w

abbrev IsWord : Text → Type 0
IsWord w = (is_nil w ≡ false) × IsLetters w

push_word-IsWord :
    (w : Text) (ws : List Text) → IsLetters w → All IsWord ws → All IsWord (push_word w ws)
unfolding push_word
push_word-IsWord [] ws l h = h
push_word-IsWord (c ∷ w) ws l h = ((refl, l), h)

split_words-IsWord : (s : Text) → IsLetters (split_words s).0 × All IsWord (split_words s).1
unfolding split_words
split_words-IsWord [] = (tt, tt)
split_words-IsWord (c ∷ s) =
    let (l, ws) = split_words-IsWord s in
    elim (Bool-cases (is_space c)) [
      | inl e ↦ rw e (tt, push_word-IsWord (split_words s).0 (split_words s).1 l ws)
      | inr e ↦ rw e ((e, l), ws)
    ]

tidy_from-word : (w rest : Text) → IsLetters w → tidy_from false (w ++ rest) ≡ tidy_from false rest
tidy_from-word [] rest h = refl
tidy_from-word (c ∷ w) rest h = rw h.0 (tidy_from-word w rest h.1)

tidy_from-first : (w rest : Text) → IsWord w → tidy_from true (w ++ rest) ≡ tidy_from false rest
tidy_from-first [] rest h = cc h.0
tidy_from-first (c ∷ w) rest h = rw h.1.0 (tidy_from-word w rest h.1.1)

join-IsTidy :
    (w : Text) (ws : List Text) → IsWord w → All IsWord ws → IsTidy (join (codes " ") (w ∷ ws))
unfolding join is_space
join-IsTidy w [] h hs = subst (λ t. tidy_from true t ≡ true) (append-nil w) (tidy_from-first w [] h)
join-IsTidy w (v ∷ ws) h hs =
    tidy_from-first w (b' ' ∷ join (codes " ") (v ∷ ws)) h ∙ join-IsTidy v ws hs.0 hs.1

joined :
    (ws : List Text)
    → All IsWord ws
    → (is_nil (join (codes " ") ws) ≡ true) ⊎ IsTidy (join (codes " ") ws)
unfolding join
joined [] h = inl refl
joined (w ∷ ws) h = inr (join-IsTidy w ws h.0 h.1)

-- A text on one line is empty or tidy.
one_line-IsTidy : (s : Text) → (is_nil (one_line s) ≡ true) ⊎ IsTidy (one_line s)
unfolding one_line
one_line-IsTidy s =
    let (l, ws) = split_words-IsWord s in
    joined (push_word (split_words s).0 (split_words s).1)
      (push_word-IsWord (split_words s).0 (split_words s).1 l ws)

tidy_last :
    (b : Bool) (c : ℕ) (s : Text)
    → tidy_from b (c ∷ s) ≡ true
    → (start : Text) × (l : ℕ) × (c ∷ s ≡ start ++ l ∷ []) × (is_space l ≡ false)
tidy_last b c [] h = elim (Bool-cases (is_space c)) [
  | inl e ↦ let clash = rw e at h in ground arith
  | inr e ↦ ([], c, refl, e)
]
tidy_last b c (d ∷ s) h =
    let (start, l, e, n) = tidy_last (is_space c) d s (later c d s b h) in
    (c ∷ start, l, ap (λ t. c ∷ t) e, n)
  where
    later :
        (c d : ℕ) (s : Text) (b : Bool)
        → tidy_from b (c ∷ d ∷ s) ≡ true
        → tidy_from (is_space c) (d ∷ s) ≡ true
    later c d s b h = elim (Bool-cases (is_space c)) [
      | inl e ↦ rw e (ground (arith, h, e))
      | inr e ↦ rw e (rw e at h)
    ]

lstrip-tidy : (s : Text) → IsTidy s → lstrip s ≡ s
unfolding lstrip
lstrip-tidy [] h = refl
lstrip-tidy (c ∷ s) h = elim (Bool-cases (is_space c)) [
  | inl e ↦ ground (arith, h, e)
  | inr e ↦ rw e refl
]

lstrip-letter : (l : ℕ) (s : Text) → is_space l ≡ false → lstrip (l ∷ s) ≡ l ∷ s
unfolding lstrip
lstrip-letter l s e = rw e refl

strip-letters :
    (s start : Text) (l : ℕ) → s ≡ start ++ l ∷ [] → is_space l ≡ false → lstrip s ≡ s → strip s ≡ s
unfolding strip
strip-letters s start l e n h =
    let reversed : reverse s ≡ l ∷ reverse start = ap reverse e ∙ reverse-append start (l ∷ []) in
    ap (λ t. reverse (lstrip (reverse t))) h
    ∙ (ap (λ t. reverse (lstrip t)) reversed
        ∙ (ap reverse (lstrip-letter l (reverse start) n)
            ∙ (ap reverse (sym reversed) ∙ reverse-reverse s)))

-- Stripping changes nothing in a tidy text.
pub strip-tidy : (s : Text) → IsTidy s → strip s ≡ s
strip-tidy [] h = cc
strip-tidy (c ∷ s) h =
    let (start, l, e, n) = tidy_last true c s h in
    strip-letters (c ∷ s) start l e n (lstrip-tidy (c ∷ s) h)

abbrev pub IsTidyIf : Option Text → Type 0
IsTidyIf none = Unit
IsTidyIf (some v) = IsTidy v

-- A subclass of `HtmlParserError`, or the `ValueError` of `urljoin`
abbrev pub is_html_error : HtmlError → Bool
is_html_error bad_url = true
is_html_error bad_rules = true
is_html_error unexpected_page = true
is_html_error invalid_opportunity = true

-- A result with the property, or one of these exceptions
abbrev pub Returns : {A : Type 0} → (A → Type 0) → Result HtmlError A → Type 0
Returns P r = Ends is_html_error P r

pub Returns-bind :
    {A B : Type 0} (P : A → Type 0) (Q : B → Type 0) (m : Result HtmlError A)
    (f : A → Result HtmlError B)
    → Returns P m
    → ((a : A) → P a → Returns Q (f a))
    → Returns Q (m >>= f)
Returns-bind P Q m f = Ends-bind is_html_error P Q m f

missing-Returns : (source : ValueSource) → Returns IsTidyIf (missing source)
unfolding missing
missing-Returns source = elim (Bool-cases source.required) [ inl e ↦ rw e refl | inr e ↦ rw e tt ]

present-Returns : (source : ValueSource) (value : Text) → Returns IsTidyIf (present source value)
unfolding present
present-Returns source value = elim (Bool-cases (is_nil (one_line value))) [
  | inl e ↦ rw e (missing-Returns source)
  | inr e ↦ elim (one_line-IsTidy value) [ inl f ↦ cc | inr t ↦ rw e t ]
]

attribute_present-Returns :
    (source : ValueSource) (raw : Option AttributeValue)
    → Returns IsTidyIf (attribute_present source raw)
unfolding attribute_present
attribute_present-Returns source none = missing-Returns source
attribute_present-Returns source (some raw) = present-Returns source _

module _ (h : Html) where
  extract_from-Returns :
      (source : ValueSource) (element : h.Element) (a : Option Text)
      → Returns IsTidyIf (extract_from h source element a)
  unfolding extract_from
  extract_from-Returns source element none = present-Returns source (h.get_text element)
  extract_from-Returns source element (some a) = attribute_present-Returns source _

  extract_selected-Returns :
      (source : ValueSource) (selected : Option (Option h.Element))
      → Returns IsTidyIf (extract_selected h source selected)
  unfolding extract_selected
  extract_selected-Returns source none = refl
  extract_selected-Returns source (some none) = missing-Returns source
  extract_selected-Returns source (some (some element)) =
      extract_from-Returns source element source.attribute

  extract_by-Returns :
      (source : ValueSource) (container : h.Element) (selector : Option Text)
      → Returns IsTidyIf (extract_by h source container selector)
  unfolding extract_by
  extract_by-Returns source container none = extract_from-Returns source container source.attribute
  extract_by-Returns source container (some s) = extract_selected-Returns source _

  -- What is extracted is tidy.
  pub extract-Returns :
      (source : ValueSource) (container : h.Element) → Returns IsTidyIf (extract h source container)
  unfolding extract
  extract-Returns source container = extract_by-Returns source container source.selector
