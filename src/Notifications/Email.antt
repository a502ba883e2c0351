-- ===== src/Notifications/Email.antt =====
-- web_checker/notifications/email.py: the settings from the environment, the message, and the calls
-- of smtplib; with the line that web_checker/notifications/console.py prints.
pub mod Settings
pub mod Message
pub mod Transport
pub mod Headers
pub mod Encrypted
pub mod Limits
