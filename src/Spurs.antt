-- ===== src/Spurs.antt =====
-- spu_spurs.cpp: the runs of the SPURS kernel and of the workloads that it dispatches.
pub mod State
pub mod Vertices
pub mod Workload
pub mod Kernel
pub mod Within
pub mod Steady
mod Tests
