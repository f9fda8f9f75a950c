-- ===== src/Spec/Parse.antt =====
-- cpp/src/spec.h: the parsers of the kinds, each a check of the intent's body.
pub mod Tables
pub mod Objects
pub mod Routines
pub mod Access
pub mod Constraints
pub mod Columns
pub mod Source
pub mod Rows
pub mod NewTable
