-- ===== src/Arch.antt =====
-- src/arch/x86_64: the per-CPU data, memory as words, and the start of a CPU.
pub mod Words
pub mod Cpu
pub mod Machine
pub mod Lapic
pub mod Startup
