-- ===== src/Cleanse.antt =====
-- cpplint.py, preparing the lines of a file: raw strings, comments and string contents are taken
-- out before the checks look at a line (`IsCppString` to `CleansedLines`).
pub mod RawStrings
pub mod MultiLine
pub mod Lines
pub mod MultiLineLaws
pub mod Laws
pub mod Blanking
pub mod BlankingLoop
