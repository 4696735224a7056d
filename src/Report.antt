-- ===== src/Report.antt =====
-- crates/core/src/report: the audit report and the rules that it keeps.
pub mod Findings
pub mod Causes
pub mod Audit
