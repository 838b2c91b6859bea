-- ===== src/Language.antt =====
-- cpplint.py, the checks of the use of the language: `CheckPosixThreading`,
-- `CheckForNonStandardConstructs`, `CheckLanguage`, `CheckForNonConstReference`, `CheckCStyleCast`
-- and `CheckMakePairUsesDeduction`.
pub mod Functions
pub mod Constructs
pub mod Casts
pub mod Arrays
pub mod Printf
pub mod Types
pub mod References
