-- ===== src/Evaluate.antt =====
-- crates/core/src/evaluate: the rule evaluators of the four layers, and their intersection.
pub mod Types
pub mod Match
pub mod Nacl
pub mod Sg
pub mod Path
pub mod Engine
pub mod Candidates
