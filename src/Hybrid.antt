-- ===== src/Hybrid.antt =====
-- hybrid/boot/init.c and hybrid/boot/services.c, the C half of the kernel that hands over to Zig. Most
-- of init.c is the code of c/kernel/minimal_step9.c again; here is what it has of its own.
pub mod Services
pub mod Wire
pub mod Features
pub mod Answers
pub mod Report
pub mod BootInfo
pub mod Start
pub mod Fill
pub mod Handover
pub mod Endings
pub mod Memory
