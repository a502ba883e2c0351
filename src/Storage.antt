-- ===== src/Storage.antt =====
-- web_checker/storage.py: the SQLite store. A table is the list of its rows, and an SQL statement is
-- a function on the tables; a method is a transaction, whose changes an error takes back.
pub mod Tables
pub mod Encoding
pub mod Latest
pub mod Insert
pub mod Success
pub mod Failure
pub mod Backlog
pub mod Status
pub mod Pending
pub mod Alerts
pub mod Prune
pub mod Alerting
pub mod Initialize
