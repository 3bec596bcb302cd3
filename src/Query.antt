-- ===== src/Query.antt =====
-- crates/query/src: the query language.
pub mod Ast
pub mod Tokens
pub mod Tokenizer
pub mod Cache
pub mod Executor
