-- ===== src/Values.antt =====
-- valueparser.go and tokenizer.go: the parser of values in text.
pub mod Scanner
pub mod Parser
pub mod Parse
pub mod Build
pub mod Reads
pub mod Fails
pub mod Length
pub mod Total
