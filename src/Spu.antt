-- ===== src/Spu.antt =====
-- The SPU interpreter, spu_interp.h and spu_interp.cpp, one module for each part.
pub mod Reg
pub mod Context
pub mod LocalStore
pub mod Mfc
pub mod Channel
pub mod Shuffle
pub mod Quad
pub mod Isa
pub mod Elf
pub mod Step
pub mod Invariant
pub mod Meaning
pub mod Tests
