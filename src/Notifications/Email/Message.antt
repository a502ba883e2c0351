-- ===== src/Notifications/Email/Message.antt =====
-- `_build_message` of web_checker/notifications/email.py, and the text that
-- web_checker/notifications/console.py prints.
use web_checker_py.Prelude.{Option, none, some, List, [], ◌∷◌, ◌++◌, Text, codes, join, one_line}
use web_checker_py.Config.Values.{Numbers}
use web_checker_py.Storage.Encoding.{transition_value}
use web_checker_py.Notifications.Models.{PendingNotification, OperationalAlert}
use web_checker_py.Notifications.Email.Settings.{SmtpSettings}

-- What is sent.
pub data Notice : Type 0 where
  pending : PendingNotification → Notice
  operational : OperationalAlert → Notice

-- The parts of an `EmailMessage` that the code sets
pub record Message : Type 0 where
  pub subject : Text
  pub sender : Text
  pub to : Text
  pub content : Text

unfoldable pub notice_title : Notice → Text
notice_title (pending n) = one_line n.opportunity_title
notice_title (operational a) = one_line a.title

-- The lines of the content
unfoldable pub notice_lines : Notice → List Text
notice_lines (operational a) = a.detail ∷ []
notice_lines (pending n) =
    one_line n.opportunity_title ∷ elim n.booking_url [ none ↦ [] | some url ↦ [] ∷ url ∷ [] ]

-- `_build_message`
unfoldable pub build_message : {n : Numbers} → SmtpSettings n → Notice → Message
build_message settings notice = record {
  subject = codes "[Web Checker] " ++ notice_title notice;
  sender = settings.sender;
  to = join (codes ", ") settings.recipients;
  content = join (codes "\n") (notice_lines notice) ++ codes "\n";
}

abbrev booking : Option Text → Text
booking none = []
booking (some []) = []
booking (some (c ∷ url)) = codes " " ++ (c ∷ url)

-- The line that `ConsoleNotifier.send` prints
unfoldable pub console_line : Notice → Text
console_line (operational a) = codes "Operational alert: " ++ a.title ++ codes " — " ++ a.detail
console_line (pending n) =
    codes "Notification: "
    ++ n.job_id
    ++ codes " "
    ++ transition_value n.transition_type
    ++ codes " — "
    ++ n.opportunity_title
    ++ booking n.booking_url
