-- ===== src/Spu/Isa.antt =====
-- spu_interp.cpp: the instructions, a module for each format of their encoding.
pub mod Fields
pub mod Floats
pub mod Handler
pub mod Rrr
pub mod Ri16
pub mod Ri10
pub mod Rr
