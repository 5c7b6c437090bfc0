-- ===== src/Criteria.antt =====
-- swayr/src/criteria.rs: the language of criteria, its parser, and the test that a criterion is.
pub mod Syntax
pub mod Parser
pub mod Eval
