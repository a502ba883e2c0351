-- ===== src/Tests/Mail.antt =====
-- The theorems on e-mail at an environment with a server, credentials and two recipients.
use web_checker_py.Prelude.{
  Bool, false, none, some, [], ◌∷◌, codes, is_space, strip, lstrip, ok, ◌≡◌, refl,
}
use web_checker_py.Notifications.Email.Settings.{
  Readers, whole, SmtpSettings, Environment, smtp, variable, optional_nonblank, split_comma,
  default_port, checked_port, parse_port, checked_timeout, parse_timeout, parse_address,
  parse_addresses, read_settings, from_environment, starttls,
}
use web_checker_py.Notifications.Email.Message.{Notice, operational, build_message}
use web_checker_py.Notifications.Email.Transport.{Call, send_email}
use web_checker_py.Notifications.Email.Limits.{IsValidSettings, from_environment-IsValidSettings}
use web_checker_py.Notifications.Email.Headers.{HasSafeHeaders, build_message-HasSafeHeaders}
use web_checker_py.Notifications.Email.Encrypted.{IsEncrypted, send_email-IsEncrypted}
use web_checker_py.Notifications.Registry.{register, register_all}
use web_checker_py.Notifications.Defaults.{
  console, email, notifier_name, default_notifiers, create_default_notifier_registry,
}
use web_checker_py.Tests.Documents.{whole_numbers}

-- Every text is an address without a name, and every number is 2525.
abbrev readers : Readers whole_numbers
readers = record {
  parseaddr = λ s. ([], s);
  parse_int = λ s. whole 2525;
  parse_float = λ s. some 30;
}

abbrev environment : Environment
environment =
    (smtp (codes "HOST"), codes " mail.test ")
    ∷ (smtp (codes "PORT"), codes "2525")
    ∷ (smtp (codes "USERNAME"), codes "worker")
    ∷ (smtp (codes "PASSWORD"), codes "secret")
    ∷ (smtp (codes "FROM"), codes "a@mail.test")
    ∷ (smtp (codes "TO"), codes "b@mail.test, c@mail.test")
    ∷ []

abbrev settings : SmtpSettings whole_numbers
settings = record {
  host = codes "mail.test";
  port = 2525;
  security = starttls;
  sender = codes "a@mail.test";
  recipients = codes "b@mail.test" ∷ codes "c@mail.test" ∷ [];
  timeout_seconds = 10;
  username = some (codes "worker");
  password = some (codes "secret");
}

reads : from_environment readers environment ≡ ok (some settings)
unfolding from_environment read_settings parse_addresses parse_address parse_timeout checked_timeout
    parse_port checked_port default_port split_comma optional_nonblank variable smtp strip lstrip
    is_space
reads = refl

registers_both :
    create_default_notifier_registry readers environment
    ≡ ok ((codes "console", console) ∷ (codes "email", email settings) ∷ [])
unfolding create_default_notifier_registry default_notifiers notifier_name register_all register
    strip
registers_both = rw reads refl

-- A title of two lines
abbrev notice : Notice
notice = operational (record {
  id = 1;
  channel = codes "email";
  key = codes "job:failed";
  job_id = some (codes "job");
  title = codes "Check failed\nBcc: d@mail.test";
  detail = codes "timeout";
  created_at = record {
    year = 2026;
    month = 8;
    day = 15;
    hour = 7;
    minute = 0;
    second = 0;
    microsecond = 0;
    utcoffset = none;
  };
  attempts = 0;
})

from_environment-IsValidSettings_example : IsValidSettings readers environment settings
from_environment-IsValidSettings_example =
    from_environment-IsValidSettings readers environment settings reads

build_message-HasSafeHeaders_example : HasSafeHeaders (build_message settings notice)
build_message-HasSafeHeaders_example =
    build_message-HasSafeHeaders readers environment settings notice reads

-- No call raises.
abbrev smooth : Call → Bool
smooth call = false

send_email-IsEncrypted_example : IsEncrypted false (send_email smooth settings notice).0
send_email-IsEncrypted_example =
    send_email-IsEncrypted readers environment settings smooth notice reads refl
