-- ===== src/Notifications/Email/Headers.antt =====
-- The headers that `_build_message` of web_checker/notifications/email.py sets.
use web_checker_py.Prelude.{
  ℕ, false, some, List, [], ◌∷◌, All, All-append, All-map, Text, codes, is_space, push_word,
  split_words, join, one_line, nat_eq, text_eq, ok, ◌≡◌, refl, arith, Bool-cases, inl, inr,
}
use web_checker_py.Config.Values.{Numbers}
use web_checker_py.Notifications.Email.Settings.{
  Readers, SmtpSettings, Environment, from_environment,
}
use web_checker_py.Notifications.Email.Message.{
  Notice, pending, operational, Message, notice_title, build_message,
}
use web_checker_py.Notifications.Email.Limits.{
  IsInLine, IsLine, contains-IsLine, from_environment-IsValidSettings,
}

-- No header has a line break.
pub record HasSafeHeaders (m : Message) : Type 0 where
  pub subject : IsLine m.subject
  pub sender : IsLine m.sender
  pub to : IsLine m.to

not_space : (c : ℕ) → is_space c ≡ false → IsInLine c
unfolding is_space
not_space c h = ground (arith, h)

push_word-All : (w : Text) (ws : List Text) → IsLine w → All IsLine ws → All IsLine (push_word w ws)
unfolding push_word
push_word-All [] ws h hs = hs
push_word-All (c ∷ w) ws h hs = (h, hs)

split_words-All : (s : Text) → IsLine (split_words s).0 × All IsLine (split_words s).1
unfolding split_words
split_words-All [] = (tt, tt)
split_words-All (c ∷ s) = elim (Bool-cases (is_space c)) [
  | inl e ↦ rw e (tt, push_word-All _ (split_words s).1 (split_words-All s).0 (split_words-All s).1)
  | inr e ↦ rw e ((not_space c e, (split_words-All s).0), (split_words-All s).1)
]

join-IsLine :
    (separator : Text) (parts : List Text)
    → IsLine separator
    → All IsLine parts
    → IsLine (join separator parts)
unfolding join
join-IsLine separator [] h hs = tt
join-IsLine separator (part ∷ []) h hs = hs.0
join-IsLine separator (part ∷ next ∷ rest) h hs =
    All-append IsInLine part _ hs.0
      (All-append IsInLine separator _ h (join-IsLine separator (next ∷ rest) h hs.1))

one_line-IsLine : (s : Text) → IsLine (one_line s)
unfolding one_line
one_line-IsLine s =
    join-IsLine (codes " ") _ (refl, tt)
      (push_word-All _ (split_words s).1 (split_words-All s).0 (split_words-All s).1)

notice_title-IsLine : (notice : Notice) → IsLine (notice_title notice)
unfolding notice_title
notice_title-IsLine (pending n) = one_line-IsLine n.opportunity_title
notice_title-IsLine (operational a) = one_line-IsLine a.title

prefix : IsLine (codes "[Web Checker] ")
prefix = contains-IsLine (codes "[Web Checker] ") refl refl

-- With settings from the environment no title and no address can add a header: subject, sender and
-- recipients of every message are without line breaks.
pub build_message-HasSafeHeaders :
    {n : Numbers} (r : Readers n) (values : Environment) (s : SmtpSettings n) (notice : Notice)
    → from_environment r values ≡ ok (some s)
    → HasSafeHeaders (build_message s notice)
unfolding build_message
build_message-HasSafeHeaders r values s notice h =
    let valid = from_environment-IsValidSettings r values s h in
    record {
      subject = All-append IsInLine (codes "[Web Checker] ") _ prefix (notice_title-IsLine notice);
      sender = valid.sender.line;
      to =
          join-IsLine (codes ", ") s.recipients (refl, (refl, tt))
            (All-map s.recipients (λ a f. f.line) valid.recipients);
    }
