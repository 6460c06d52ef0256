-- ===== src/Lv2/Call/Laws.antt =====
-- runtime_glue.cpp, `lv2_syscall`: what the calls have in common.
pub mod Missing
pub mod Delivery
