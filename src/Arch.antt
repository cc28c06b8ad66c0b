-- ===== src/Arch.antt =====
-- The x86_64 part of the kernel, src/arch/x86_64.
pub mod Calendar
pub mod Io
pub mod Apic
pub mod Kvmclock
pub mod Mptable
pub mod Tests
