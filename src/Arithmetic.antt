-- ===== src/Arithmetic.antt =====
-- The runtime's integer operations (crates/runtime/src/arithmetic/). Each pops its operands from
-- the stack, panics if one of them is no Int, and pushes what it computes from the two `i64`s.
pub mod Words
pub mod Signed
pub mod Shape
pub mod Arith
pub mod Compare
pub mod Bitwise
mod Tests
