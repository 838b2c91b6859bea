-- ===== src/Expression.antt =====
-- cpplint.py, matching parentheses: `FindEndOfExpressionInLine` to `ReverseCloseExpression`.
pub mod Scan
pub mod Balance
pub mod Closing
