-- ===== src/Tests.antt =====
-- Tests of the definitions at small inputs, and the theorems at inputs that meet their hypotheses.
mod Lint
mod Lines
mod Nesting
mod Files
mod Paths
mod Style
mod Language
mod Arguments
