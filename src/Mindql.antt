-- ===== src/Mindql.antt =====
-- The MindQL query language (src/engrava/mindql/parser.py, src/engrava/mindql/executor.py).
pub mod Syntax
pub mod Ended
pub mod Parse
pub mod Compile
pub mod Quote
pub mod Fragment
pub mod Tokens
mod Tests
