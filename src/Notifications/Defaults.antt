-- ===== src/Notifications/Defaults.antt =====
-- `create_default_notifier_registry` of web_checker/notifications/registry.py, with the names of the
-- adapters in console.py and email.py.
use web_checker_py.Prelude.{Option, none, some, List, [], ◌∷◌, Text, codes, Result, ◌>>=◌, map_err}
use web_checker_py.Config.Values.{Numbers}
use web_checker_py.Notifications.Registry.{RegistryError, register_all}
use web_checker_py.Notifications.Email.Settings.{
  EmailError, Readers, SmtpSettings, Environment, from_environment,
}

-- `ConsoleNotifier(output)` and `EmailNotifier(settings)`
pub data Notifier (n : Numbers) : Type 0 where
  console : Notifier n
  email : SmtpSettings n → Notifier n

-- Both are raised as a `NotifierRegistryError`.
pub data DefaultsError : Type 0 where
  bad_settings : EmailError → DefaultsError
  bad_registry : RegistryError → DefaultsError

unfoldable pub notifier_name : {n : Numbers} → Notifier n → Text
notifier_name console = codes "console"
notifier_name (email settings) = codes "email"

-- `notifiers`, after the settings were read
unfoldable pub default_notifiers : {n : Numbers} → Option (SmtpSettings n) → List (Notifier n)
default_notifiers none = console ∷ []
default_notifiers (some settings) = console ∷ email settings ∷ []

unfoldable pub create_default_notifier_registry :
    {n : Numbers} → Readers n → Environment → Result DefaultsError (List (Text × Notifier n))
create_default_notifier_registry readers values = do
  settings ← map_err bad_settings (from_environment readers values)
  map_err bad_registry (register_all notifier_name (default_notifiers settings) [])
