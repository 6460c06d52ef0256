-- ===== src/Rsx.antt =====
-- runtime_glue.cpp: the command processor of the graphics chip, and the word writes of the guest,
-- which drive it.
pub mod State
pub mod Handle
pub mod Fifo
pub mod Write
pub mod Control
pub mod Texture
mod Tests
