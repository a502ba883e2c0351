-- ===== src/Notifications/Email/Encrypted.antt =====
-- The order of the calls of smtplib in web_checker/notifications/email.py.
use web_checker_py.Prelude.{
  beq_sym, ◌∙◌, Bool, true, false, ◌||◌, Option, none, some, List, [], ◌∷◌, contains, Text, ◌==◌,
  text_eq, ok, ◌≡◌, refl, arith, Bool-cases, inl, inr,
}
use web_checker_py.Config.Values.{Numbers}
use web_checker_py.Notifications.Email.Settings.{
  Readers, SmtpSettings, Environment, from_environment, starttls, implicit_tls, no_security,
  security_modes,
}
use web_checker_py.Notifications.Email.Message.{Notice, Message, build_message}
use web_checker_py.Notifications.Email.Transport.{
  Call, connect, connect_ssl, start_tls, login, send_message, finish_sending, calls, attempted,
  send_email,
}
use web_checker_py.Notifications.Email.Limits.{from_environment-IsValidSettings}

-- Whether the connection is encrypted after a call
abbrev pub after : Bool → Call → Bool
after encrypted (connect host port) = false
after encrypted (connect_ssl host port) = true
after encrypted start_tls = true
after encrypted (login user password) = encrypted
after encrypted (send_message message sender to) = encrypted

-- Whether a call may be made: a login or a message needs an encrypted connection.
abbrev pub allowed : Bool → Call → Bool
allowed encrypted (connect host port) = true
allowed encrypted (connect_ssl host port) = true
allowed encrypted start_tls = true
allowed encrypted (login user password) = encrypted
allowed encrypted (send_message message sender to) = encrypted

-- Every login and every message goes over an encrypted connection.
abbrev pub IsEncrypted : Bool → List Call → Type 0
IsEncrypted encrypted [] = Unit
IsEncrypted encrypted (c ∷ cs) = (allowed encrypted c ≡ true) × IsEncrypted (after encrypted c) cs

-- An exception only cuts the calls off.
attempted-IsEncrypted :
    (raises : Call → Bool) (holds encrypted : Bool) (cs : List Call)
    → IsEncrypted encrypted cs
    → IsEncrypted encrypted (attempted raises holds cs).0
unfolding attempted
attempted-IsEncrypted raises holds encrypted [] h = tt
attempted-IsEncrypted raises holds encrypted (c ∷ cs) h = elim (Bool-cases (raises c)) [
  | inl e ↦ rw e (h.0, tt)
  | inr e ↦ rw e (h.0, attempted-IsEncrypted raises holds (after encrypted c) cs h.1)
]

finish_sending-IsEncrypted :
    (user password : Option Text) (m : Message) (sender : Text) (to : List Text)
    → IsEncrypted true (finish_sending user password (send_message m sender to)).0
unfolding finish_sending
finish_sending-IsEncrypted none password m sender to = (refl, tt)
finish_sending-IsEncrypted (some user) none m sender to = tt
finish_sending-IsEncrypted (some user) (some password) m sender to = (refl, (refl, tt))

second : (a b c : Bool) → (a || (b || (c || false))) ≡ true → c ≡ false → a ≡ false → b ≡ true
second a b c h hc ha = ground (arith, h, hc, ha)

modes :
    (security : Text)
    → contains security_modes security ≡ true
    → (security == no_security) ≡ false
    → (security == starttls) ≡ false
    → (security == implicit_tls) ≡ true
modes security known on e =
    beq_sym security implicit_tls
    ∙ second (starttls == security) (implicit_tls == security) (no_security == security) known
        (beq_sym no_security security ∙ on) (beq_sym starttls security ∙ e)

calls-IsEncrypted :
    {n : Numbers} (s : SmtpSettings n) (m : Message)
    → contains security_modes s.security ≡ true
    → (s.security == no_security) ≡ false
    → IsEncrypted false (calls s m).0
unfolding calls
calls-IsEncrypted s m known on = elim (Bool-cases (s.security == starttls)) [
  | inl e ↦
      let rest = finish_sending-IsEncrypted s.username s.password m s.sender s.recipients in
      elim (Bool-cases (s.security == implicit_tls)) [
        | inl f ↦ rw (e, f) (refl, (refl, rest))
        | inr f ↦ rw (e, f) (refl, (refl, rest))
      ]
  | inr e ↦
      rw (e, modes s.security known on e)
        (refl, finish_sending-IsEncrypted s.username s.password m s.sender s.recipients)
]

-- With settings from the environment whose security is not "none", credentials and messages are
-- sent over an encrypted connection only, whichever call raises.
pub send_email-IsEncrypted :
    {n : Numbers} (r : Readers n) (values : Environment) (s : SmtpSettings n) (raises : Call → Bool)
    (notice : Notice)
    → from_environment r values ≡ ok (some s)
    → (s.security == no_security) ≡ false
    → IsEncrypted false (send_email raises s notice).0
unfolding send_email
send_email-IsEncrypted r values s raises notice h on =
    let valid = from_environment-IsValidSettings r values s h in
    attempted-IsEncrypted raises _ false _
      (calls-IsEncrypted s (build_message s notice) valid.security on)
