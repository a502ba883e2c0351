-- ===== src/Notifications/Email/Settings.antt =====
-- `SMTPSettings.from_environment` of web_checker/notifications/email.py. `parseaddr`, `int` and
-- `float` are parameters.
use web_checker_py.Prelude.{
  differ, ℕ, Bool, true, false, not, ◌&&◌, ◌||◌, Option, none, some, List, [], ◌∷◌, ◌++◌, contains,
  Text, codes, is_nil, is_none, strip, leb, filter, any, ◌==◌, nat_eq, text_eq, Result, ok, err,
  ◌>>=◌, ◌>>◌, raise_if, if◌then◌else◌,
}
use web_checker_py.Config.Values.{Numbers}

-- What `int` makes of a text: a `ValueError`, a number below zero, or another.
pub data Parsed : Type 0 where
  invalid below_zero : Parsed
  whole : ℕ → Parsed

-- `parseaddr`, `int` and `float`; `float` has no value where it raises `ValueError`.
pub record Readers (n : Numbers) : Type 0 where
  pub parseaddr : Text → Text × Text
  pub parse_int : Text → Parsed
  pub parse_float : Text → Option n.Number

pub data EmailError : Type 0 where
  missing : List Text → EmailError
  bad_security not_an_integer port_out_of_range not_a_number timeout_out_of_range : EmailError
  unpaired_credentials bad_address no_recipients : EmailError
  blank : Text → EmailError

pub record SmtpSettings (n : Numbers) : Type 0 where
  pub host : Text
  pub port : ℕ
  pub security : Text
  pub sender : Text
  pub recipients : List Text
  pub timeout_seconds : n.Number
  pub username : Option Text
  pub password : Option Text

abbrev pub starttls : Text
starttls = codes "starttls"

abbrev pub implicit_tls : Text
implicit_tls = codes "implicit-tls"

abbrev pub no_security : Text
no_security = codes "none"

abbrev pub security_modes : List Text
security_modes = starttls ∷ implicit_tls ∷ no_security ∷ []

-- The name of a variable
unfoldable pub smtp : Text → Text
smtp field = codes "WEB_CHECKER_SMTP_" ++ field

abbrev pub smtp_fields : List Text
smtp_fields =
    smtp (codes "HOST")
    ∷ smtp (codes "PORT")
    ∷ smtp (codes "SECURITY")
    ∷ smtp (codes "USERNAME")
    ∷ smtp (codes "PASSWORD")
    ∷ smtp (codes "FROM")
    ∷ smtp (codes "TO")
    ∷ smtp (codes "TIMEOUT_SECONDS")
    ∷ []

-- The names in the order of `sorted`
abbrev pub required_fields : List Text
required_fields = smtp (codes "FROM") ∷ smtp (codes "HOST") ∷ smtp (codes "TO") ∷ []

abbrev pub Environment : Type 0
Environment = List (Text × Text)

-- `values.get(name)`
unfoldable pub variable : Environment → Text → Option Text
variable [] name = none
variable (p ∷ ps) name = let later = variable ps name in if p.0 == name then some p.1 else later

-- `values.get(name, default)`
abbrev pub variable_or : Text → Environment → Text → Text
variable_or default values name = elim (variable values name) [ none ↦ default | some v ↦ v ]

-- `_optional_nonblank`
unfoldable pub optional_nonblank : Environment → Text → Result EmailError (Option Text)
optional_nonblank values name = elim (variable values name) [
  | none ↦ ok none
  | some v ↦ do raise_if (is_nil (strip v)) (blank name); ok (some (strip v))
]

-- `s.split(",")`: the part before the first comma, and the others
unfoldable pub split_comma : Text → Text × List Text
split_comma [] = ([], [])
split_comma (c ∷ s) =
    let parts = split_comma s in
    if c == b',' then ([], parts.0 ∷ parts.1) else (c ∷ parts.0, parts.1)

unfoldable pub default_port : Text → ℕ
default_port security =
    if security == starttls then 587 else if security == implicit_tls then 465 else 25

-- `_parse_integer` for the port, on what `int` gives
unfoldable pub checked_port : Parsed → Result EmailError ℕ
checked_port invalid = err not_an_integer
checked_port below_zero = err port_out_of_range
checked_port (whole k) = do raise_if (not (leb 1 k && leb k 65535)) port_out_of_range; ok k

module _ {n : Numbers} (r : Readers n) where
  unfoldable pub parse_port : ℕ → Option Text → Result EmailError ℕ
  parse_port default none = ok default
  parse_port default (some v) = checked_port (r.parse_int v)

  -- `_parse_float` for the timeout, on what `float` gives
  unfoldable pub checked_timeout : Option n.Number → Result EmailError n.Number
  checked_timeout none = err not_a_number
  checked_timeout (some x) = do
    raise_if (not (n.less (n.of_nat 0) x && n.leq x (n.of_nat 120))) timeout_out_of_range
    ok x

  unfoldable pub parse_timeout : Option Text → Result EmailError n.Number
  parse_timeout none = ok (n.of_nat 10)
  parse_timeout (some v) = checked_timeout (r.parse_float v)

  -- `_parse_address`
  unfoldable pub parse_address : Text → Result EmailError Text
  parse_address value = do
    let candidate : Text = strip value
    let parsed : Text × Text = r.parseaddr candidate
    raise_if
        (is_nil candidate
          || not (is_nil parsed.0)
          || not (parsed.1 == candidate)
          || not (contains parsed.1 b'@')
          || (contains candidate 13 || contains candidate 10))
        bad_address
    ok parsed.1

  unfoldable pub parse_addresses : List Text → Result EmailError (List Text)
  parse_addresses [] = ok []
  parse_addresses (v ∷ vs) = do
    address ← parse_address v
    addresses ← parse_addresses vs
    ok (address ∷ addresses)

  abbrev pub has_field : Environment → Text → Bool
  has_field values name = not (is_none (variable values name))

  -- What follows the test that a variable is set
  unfoldable pub read_settings : Environment → Result EmailError (SmtpSettings n)
  read_settings values = do
    let lacking : List Text =
        filter (λ name. is_nil (strip (variable_or [] values name))) required_fields
    raise_if (not (elim lacking [ [] ↦ true | ◌∷◌ x xs ↦ false ])) (missing lacking)
    let security : Text = strip (variable_or starttls values (smtp (codes "SECURITY")))
    raise_if (not (contains security_modes security)) bad_security
    port ← parse_port (default_port security) (variable values (smtp (codes "PORT")))
    timeout ← parse_timeout (variable values (smtp (codes "TIMEOUT_SECONDS")))
    username ← optional_nonblank values (smtp (codes "USERNAME"))
    password ← optional_nonblank values (smtp (codes "PASSWORD"))
    raise_if (differ (is_none username) (is_none password)) unpaired_credentials
    sender ← parse_address (variable_or [] values (smtp (codes "FROM")))
    let to : Text × List Text = split_comma (variable_or [] values (smtp (codes "TO")))
    recipients ← parse_addresses (to.0 ∷ to.1)
    raise_if (elim recipients [ [] ↦ true | ◌∷◌ x xs ↦ false ]) no_recipients
    ok (record {
      host = strip (variable_or [] values (smtp (codes "HOST")));
      port = port;
      security = security;
      sender = sender;
      recipients = recipients;
      timeout_seconds = timeout;
      username = username;
      password = password;
    })

  -- `from_environment`
  unfoldable pub from_environment : Environment → Result EmailError (Option (SmtpSettings n))
  from_environment values =
      if any (has_field values) smtp_fields
      then (do settings ← read_settings values; ok (some settings))
      else ok none
