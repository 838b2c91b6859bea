-- ===== src/Lint.antt =====
-- cpplint.py, the module-wide state: `_CppLintState`, `_error_suppressions`, `_ShouldPrintError` and
-- `Error`. A check returns the calls that it makes, as a list of effects in order.
mod Tables
unfoldable pub use Tables.{error_categories, default_filters, cpp_headers}
pub mod Suppressions
pub mod State
pub mod Steps
pub mod Filters
pub mod Run
pub mod Counts
pub mod RoundTrip
