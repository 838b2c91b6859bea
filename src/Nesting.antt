-- ===== src/Nesting.antt =====
-- cpplint.py, the stack of blocks: `_BlockInfo`, `_ClassInfo`, `_NamespaceInfo` and `_NestingState`.
pub mod Blocks
pub mod Preprocessor
pub mod Update
pub mod Completed
pub mod Loops
pub mod Conditionals
