-- ===== src/Style.antt =====
-- cpplint.py, the checks of style from `IsBlankLine` to `CheckStyle`.
pub mod Report
pub mod Angles
pub mod Blanks
pub mod Comments
pub mod Calls
pub mod Operators
pub mod Spacing
pub mod Braces
pub mod Macros
pub mod Lines
