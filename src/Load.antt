-- ===== src/Load.antt =====
-- The programs that make load to be profiled: demo/demo.c and testApp/main.cpp.
pub mod Demo
pub mod Burn
