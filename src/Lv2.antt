-- ===== src/Lv2.antt =====
-- runtime_glue.cpp: the kernel objects of the system calls, the threads, and `lv2_syscall`.
pub mod Pool
pub mod Evq
pub mod System
pub mod Host
pub mod Threads
pub mod Call
mod Tests
