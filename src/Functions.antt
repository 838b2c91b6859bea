-- ===== src/Functions.antt =====
-- cpplint.py, the length of function bodies: `_FunctionState` and `CheckForFunctionLengths`.
pub mod Log
pub mod State
pub mod Lengths
pub mod Confidence
