-- ===== src/Notifications/Email/Limits.antt =====
-- What `SMTPSettings.from_environment` of web_checker/notifications/email.py accepts.
use web_checker_py.Prelude.{
  and-true, ℕ, ◌≤◌, Bool, true, false, not, ◌&&◌, ◌||◌, Option, none, some, List, [], ◌∷◌, contains,
  All, any, length, Text, codes, is_nil, is_none, strip, leb, differ, differ-false, not-false, ◌==◌,
  nat_eq, text_eq, ok, raise_if-eq-ok, bind-eq-ok, ok-injective, ◌≡◌, sym, subst, arith, Bool-cases,
  inl, inr,
}
use web_checker_py.Config.Values.{Numbers}
use web_checker_py.Notifications.Email.Settings.{
  Readers, Parsed, invalid, below_zero, whole, SmtpSettings, security_modes, smtp, smtp_fields,
  Environment, variable, variable_or, optional_nonblank, split_comma, default_port, checked_port,
  parse_port, checked_timeout, parse_timeout, parse_address, parse_addresses, has_field,
  read_settings, from_environment, starttls, implicit_tls, port_out_of_range,
}

-- A character that does not end a line
abbrev pub IsInLine : ℕ → Type 0
IsInLine c = (c == 13 || c == 10) ≡ false

-- A text on one line
abbrev pub IsLine : Text → Type 0
IsLine = All IsInLine

pub contains-IsLine : (s : Text) → contains s 13 ≡ false → contains s 10 ≡ false → IsLine s
contains-IsLine [] a b = tt
contains-IsLine (c ∷ s) a b =
    (ground (arith, a, b), contains-IsLine s (ground (arith, a)) (ground (arith, b)))

-- An address without line breaks, with an @
pub record IsAddress (s : Text) : Type 0 where
  pub at : contains s b'@' ≡ true
  pub line : IsLine s

checked_port-le : (p : Parsed) (k : ℕ) → checked_port p ≡ ok k → (1 ≤ k) × (k ≤ 65535)
unfolding checked_port
checked_port-le invalid k h = cc
checked_port-le below_zero k h = cc
checked_port-le (whole j) k h =
    let (good, last) = raise_if-eq-ok (not (leb 1 j && leb j 65535)) port_out_of_range _ h in
    subst (λ i. (1 ≤ i) × (i ≤ 65535)) (ok-injective j k last)
      (ground (arith, good), ground (arith, good))

default_port-le : (security : Text) → (1 ≤ default_port security) × (default_port security ≤ 65535)
unfolding default_port
default_port-le security = elim (Bool-cases (security == starttls)) [
  | inl e ↦ rw e (omega arith, omega arith)
  | inr e ↦ rw e (elim (Bool-cases (security == implicit_tls)) [
    | inl f ↦ rw f (omega arith, omega arith)
    | inr f ↦ rw f (omega arith, omega arith)
  ])
]

length-pos : (xs : List Text) → elim xs [ [] ↦ true | ◌∷◌ y ys ↦ false ] ≡ false → 1 ≤ length xs
length-pos [] h = cc
length-pos (x ∷ xs) h = omega arith

address_tests :
    (a b c d e f : Bool)
    → (a || b || not c || not d || (e || f)) ≡ false
    → (c ≡ true) × (d ≡ true) × (e ≡ false) × (f ≡ false)
address_tests a b c d e f h =
    (ground (arith, h), ground (arith, h), ground (arith, h), ground (arith, h))

module _ {n : Numbers} (r : Readers n) where
  parse_port-le :
      (security : Text) (v : Option Text) (k : ℕ)
      → parse_port r (default_port security) v ≡ ok k
      → (1 ≤ k) × (k ≤ 65535)
  unfolding parse_port
  parse_port-le security none k h =
      subst (λ i. (1 ≤ i) × (i ≤ 65535)) (ok-injective _ k h) (default_port-le security)
  parse_port-le security (some v) k h = checked_port-le (r.parse_int v) k h

  -- An address that is accepted is the stripped text.
  parse_address-IsAddress : (v s : Text) → parse_address r v ≡ ok s → IsAddress s
  unfolding parse_address
  parse_address-IsAddress v s h =
      let candidate = strip v in
      let parsed = r.parseaddr candidate in
      let (good, last) =
        raise_if-eq-ok
          (is_nil candidate
            || not (is_nil parsed.0)
            || not (parsed.1 == candidate)
            || not (contains parsed.1 b'@')
            || (contains candidate 13 || contains candidate 10))
          _ _ h in
      let (same, at, no_return, no_feed) =
        address_tests (is_nil candidate) (not (is_nil parsed.0)) _ _ _ _ good in
      let equal : parsed.1 ≡ candidate = (text_eq.equal_iff parsed.1 candidate).0 same in
      subst IsAddress (ok-injective parsed.1 s last) (record {
        at = at;
        line = subst IsLine (sym equal) (contains-IsLine candidate no_return no_feed);
      })

  parse_addresses-IsAddress : (vs ss : List Text) → parse_addresses r vs ≡ ok ss → All IsAddress ss
  unfolding parse_addresses
  parse_addresses-IsAddress [] ss h = subst (All IsAddress) (ok-injective [] ss h) tt
  parse_addresses-IsAddress (v ∷ vs) ss h =
      let (a, e1, h1) = bind-eq-ok (parse_address r v) _ h in
      let (rest, e2, h2) = bind-eq-ok (parse_addresses r vs) _ h1 in
      subst (All IsAddress) (ok-injective _ ss h2)
        (parse_address-IsAddress v a e1, parse_addresses-IsAddress vs rest e2)

  checked_timeout-IsTimeout :
      (o : Option n.Number) (x : n.Number)
      → checked_timeout r o ≡ ok x
      → (n.less (n.of_nat 0) x ≡ true) × (n.leq x (n.of_nat 120) ≡ true)
  unfolding checked_timeout
  checked_timeout-IsTimeout none x h = cc
  checked_timeout-IsTimeout (some y) x h =
      let (good, last) =
        raise_if-eq-ok (not (n.less (n.of_nat 0) y && n.leq y (n.of_nat 120))) _ _ h in
      subst (λ z. (n.less (n.of_nat 0) z ≡ true) × (n.leq z (n.of_nat 120) ≡ true))
        (ok-injective y x last) (and-true _ _ (not-false _ good))

  -- A timeout is the default, or within the limits.
  abbrev pub IsTimeout : Option Text → n.Number → Type 0
  IsTimeout none x = n.of_nat 10 ≡ x
  IsTimeout (some v) x = (n.less (n.of_nat 0) x ≡ true) × (n.leq x (n.of_nat 120) ≡ true)

  parse_timeout-IsTimeout :
      (v : Option Text) (x : n.Number) → parse_timeout r v ≡ ok x → IsTimeout v x
  unfolding parse_timeout
  parse_timeout-IsTimeout none x h = ok-injective _ x h
  parse_timeout-IsTimeout (some v) x h = checked_timeout-IsTimeout (r.parse_float v) x h

  pub record IsValidSettings (values : Environment) (s : SmtpSettings n) : Type 0 where
    pub port : (1 ≤ s.port) × (s.port ≤ 65535)
    pub security : contains security_modes s.security ≡ true
    pub timeout : IsTimeout (variable values (smtp (codes "TIMEOUT_SECONDS"))) s.timeout_seconds
    pub sender : IsAddress s.sender
    pub recipients : All IsAddress s.recipients
    pub some_recipient : 1 ≤ length s.recipients
    pub paired : is_none s.username ≡ is_none s.password

  read_settings-IsValidSettings :
      (values : Environment) (s : SmtpSettings n)
      → read_settings r values ≡ ok s
      → IsValidSettings values s
  unfolding read_settings
  read_settings-IsValidSettings values s h =
      let (complete, h1) = raise_if-eq-ok _ _ _ h in
      let security = strip (variable_or starttls values (smtp (codes "SECURITY"))) in
      let (known, h2) = raise_if-eq-ok (not (contains security_modes security)) _ _ h1 in
      let (port, e3, h3) =
        bind-eq-ok (parse_port r (default_port security) (variable values (smtp (codes "PORT")))) _
          h2 in
      let (timeout, e4, h4) =
        bind-eq-ok (parse_timeout r (variable values (smtp (codes "TIMEOUT_SECONDS")))) _ h3 in
      let (user, e5, h5) = bind-eq-ok (optional_nonblank values (smtp (codes "USERNAME"))) _ h4 in
      let (password, e6, h6) =
        bind-eq-ok (optional_nonblank values (smtp (codes "PASSWORD"))) _ h5 in
      let (paired, h7) = raise_if-eq-ok (differ (is_none user) (is_none password)) _ _ h6 in
      let (sender, e8, h8) =
        bind-eq-ok (parse_address r (variable_or [] values (smtp (codes "FROM")))) _ h7 in
      let to = split_comma (variable_or [] values (smtp (codes "TO"))) in
      let (recipients, e9, h9) = bind-eq-ok (parse_addresses r (to.0 ∷ to.1)) _ h8 in
      let (not_empty, h10) =
        raise_if-eq-ok (elim recipients [ [] ↦ true | ◌∷◌ x xs ↦ false ]) _ _ h9 in
      subst (IsValidSettings values) (ok-injective _ s h10) (record {
        port = parse_port-le security _ port e3;
        security = not-false _ known;
        timeout = parse_timeout-IsTimeout _ timeout e4;
        sender = parse_address-IsAddress _ sender e8;
        recipients = parse_addresses-IsAddress (to.0 ∷ to.1) recipients e9;
        some_recipient = length-pos recipients not_empty;
        paired = differ-false _ _ paired;
      })

  -- The settings that an environment gives have a port of 1 to 65535, a known security mode, a
  -- timeout above 0 and at most 120 where one is set and 10 else, addresses with an @ and without
  -- line breaks, a recipient, and a password exactly if they have a username.
  pub from_environment-IsValidSettings :
      (values : Environment) (s : SmtpSettings n)
      → from_environment r values ≡ ok (some s)
      → IsValidSettings values s
  unfolding from_environment
  from_environment-IsValidSettings values s h =
      elim (Bool-cases (any (has_field r values) smtp_fields)) [
        | inl e ↦
            let (settings, e1, h1) = bind-eq-ok (read_settings r values) _ (rw e at h) in
            let same : settings ≡ s = cc in
            subst (IsValidSettings values) same (read_settings-IsValidSettings values settings e1)
        | inr e ↦ let clash = rw e at h in cc
      ]
