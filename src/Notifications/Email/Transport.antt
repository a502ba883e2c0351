-- ===== src/Notifications/Email/Transport.antt =====
-- `_send_message` and `send` of web_checker/notifications/email.py, as the calls of smtplib that are
-- made, in order. A call may raise, which ends the sending.
use web_checker_py.Prelude.{
  ℕ, Bool, true, false, Option, none, some, List, [], ◌∷◌, ◌++◌, Text, ◌==◌, text_eq, if◌then◌else◌,
}
use web_checker_py.Config.Values.{Numbers}
use web_checker_py.Notifications.Email.Settings.{SmtpSettings, starttls, implicit_tls}
use web_checker_py.Notifications.Email.Message.{Message, Notice, build_message}

-- A call: the two factories, with host and port, and the methods of a client.
pub data Call : Type 0 where
  connect connect_ssl : Text → ℕ → Call
  start_tls : Call
  login : Text → Text → Call
  send_message : Message → Text → List Text → Call

-- The end of the block, and whether its assertions hold: a login needs a password too.
unfoldable pub finish_sending : Option Text → Option Text → Call → List Call × Bool
finish_sending none password send = (send ∷ [], true)
finish_sending (some user) none send = ([], false)
finish_sending (some user) (some password) send = (login user password ∷ send ∷ [], true)

module _ {n : Numbers} where
  abbrev pub opening : SmtpSettings n → Call
  opening s =
      if s.security == implicit_tls then connect_ssl s.host s.port else connect s.host s.port

  abbrev pub encryption : SmtpSettings n → List Call
  encryption s = if s.security == starttls then start_tls ∷ [] else []

  -- `_send_message` where no call raises
  unfoldable pub calls : SmtpSettings n → Message → List Call × Bool
  calls s message =
      let rest =
        finish_sending s.username s.password (send_message message s.sender s.recipients) in
      (opening s ∷ (encryption s ++ rest.0), rest.1)

-- The calls that are made, up to the first that raises, and whether all of them succeed
unfoldable pub attempted : (Call → Bool) → Bool → List Call → List Call × Bool
attempted raises holds [] = ([], holds)
attempted raises holds (c ∷ cs) =
    let later = attempted raises holds cs in
    if raises c then (c ∷ [], false) else (c ∷ later.0, later.1)

-- `send`
unfoldable pub send_email :
    {n : Numbers} → (Call → Bool) → SmtpSettings n → Notice → List Call × Bool
send_email raises settings notice =
    let planned = calls settings (build_message settings notice) in
    attempted raises planned.1 planned.0
