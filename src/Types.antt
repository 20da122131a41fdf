-- ===== src/Types.antt =====
-- types/: the vocabulary of values that the rest of the stack shares.
pub mod Eigen
pub mod Quantities
pub mod Geometry
pub mod Time
mod Tests
