-- ===== src/Proto.antt =====
-- src/proto: the binary protocol. A payload is the list of its bytes, a walk is the list of the
-- callbacks that it makes, and an `f64` is its bit pattern.
pub mod Elems
pub mod Fields
pub mod Loop
pub mod Header
pub mod Value
pub mod Text
pub mod Daytimer
pub mod Weather
mod Runs
