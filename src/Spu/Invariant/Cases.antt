-- ===== src/Spu/Invariant/Cases.antt =====
-- Every case of every switch keeps the invariant.
pub mod Arithmetic
pub mod Count
pub mod Logic
pub mod Shift
pub mod QuadShift
pub mod Compare
pub mod Multiply
pub mod Single
pub mod Double
pub mod Rrr
pub mod Ri16
pub mod Ri10
pub mod Control
