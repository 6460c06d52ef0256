-- ===== src/Ppu.antt =====
-- extra_funcs.cpp and the dispatcher of runtime_glue.cpp: the functions lifted by hand.
pub mod Rotate
pub mod State
pub mod Lifted
pub mod Loops
pub mod Small
pub mod Walk
pub mod Dispatch
mod Tests
