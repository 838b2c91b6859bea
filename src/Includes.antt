-- ===== src/Includes.antt =====
-- cpplint.py, the order of #include lines: `_IncludeState`.
pub mod State
pub mod Order
pub mod Lines
pub mod Dictionary
pub mod Required
