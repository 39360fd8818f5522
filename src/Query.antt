-- ===== src/Query.antt =====
pub mod Ast
pub mod Visitor
pub mod Statements
pub mod Keywords
pub mod Nodes
pub mod Joined
pub mod Generate
pub mod Compile
pub mod Words
pub mod Grammar
pub mod Emit
pub mod Loops
pub mod Refine
pub mod Lower
pub mod Params
pub mod Gaps
pub mod Tests
