-- ===== src/Spu/Isa/Rr.antt =====
-- spu_interp.cpp, `spu_step`: the RR and RI7 formats.
pub mod Control
pub mod Arithmetic
pub mod Count
pub mod Logic
pub mod Shift
pub mod QuadShift
pub mod Compare
pub mod Multiply
pub mod Single
pub mod Double
