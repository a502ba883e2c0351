-- ===== src/Scripts.antt =====
-- scripts: the rules that the repository's workflows check, and the issues that they close.
pub mod Governance
pub mod Closing
pub mod Linked
