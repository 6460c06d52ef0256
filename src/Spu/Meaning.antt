-- ===== src/Spu/Meaning.antt =====
-- What the instructions compute, as arithmetic: laws over one or several of them.
pub mod Lane
pub mod Carry
pub mod Product
