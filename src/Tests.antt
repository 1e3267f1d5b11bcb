-- ===== src/Tests.antt =====
-- The theorems applied to concrete databases, rows and expressions, and runs of the definitions.
mod Formats
mod Recovery
mod SmallTrees
mod Statements
mod Queries
mod Answers
mod Pages
mod Parsing
mod Sessions
