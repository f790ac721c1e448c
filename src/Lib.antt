-- ===== src/Lib.antt =====
-- The C kernel of zig-boot, c/kernel/minimal_step9.c with c/kernel/vga.h: a bare-metal x86-64 kernel
-- that GRUB starts with Multiboot2 information. It prints to COM1 and to the VGA text screen, reads
-- the memory map, sets up a bitmap allocator of physical pages and a bump allocator for its heap,
-- enters the page tables into themselves, finds the processors in the ACPI tables, fills the interrupt
-- descriptor table, starts the other processors through the local APIC, lets them count and add in
-- parallel and counts the ticks of the timer.
-- The C half of the hybrid kernel, hybrid/boot/init.c, does the same up to the timer and hands over to
-- Zig, which calls back into hybrid/boot/services.c.
-- Every printing function of the kernel goes through `puts`, which drives both the serial port and
-- the screen; the memory managers and the ACPI walk share memory and the file's static variables.
-- In the tests a processor's piece of work is one step: it reads and writes places of its own, but for
-- the atomic addition to the shared total. In the barrier every access to the two shared variables is a
-- step of its own. The steps of the processors interleave freely. The arrays of the tests have sixteen
-- places, for as many processors; what C does to a larger number is left open, and the theorems on the
-- tests ask for at most sixteen.
--
--   Prelude    words with wrap-around, bytes and bits, memory by bytes, counted loops, outcomes
--   Vga        c/kernel/vga.h; Vga/Scroll and Vga/Cursor hold its theorems, Vga/Numbers its numbers
--   Serial     serial_init and putc, as a log of port accesses
--   Console    puts, print_dec, print_dec_64, print_hex, print_hex_64
--   Kernel     the state that the parts share
--   Memory     memset and memcpy
--   Multiboot  the tags, the memory map and parse_multiboot_mmap
--   Pmm        the page bitmap; Pmm/Region the whole regions, Pmm/Alloc single pages, Pmm/Setup
--              pmm_init and pmm_mark_free_regions
--   Heap       heap_init, kmalloc, kfree; Heap/Trial test_heap_allocator
--   Acpi       acpi_checksum, acpi_find_rsdp, acpi_find_madt, acpi_parse_madt
--   Idt        idt_set_gate, idt_init, idt_load
--   Parallel   test_parallel_counters and test_distributed_sum
--   Barrier    barrier_wait as atomic steps of the processors: Barrier/Safety, Barrier/Progress, and
--              Barrier/Absent on a processor that never calls it
--   Concurrent the tests of all processors at once, each step of one of them: Concurrent/Order what the
--              barriers order, Concurrent/Counters and Concurrent/Total the results,
--              Concurrent/Progress and Concurrent/Steps that a run ends, Concurrent/Verdict what is shown
--   Device     the accesses to model specific registers, mapped registers and ports, with their log
--   Machine    the whole state; Machine/Spoken the code that only prints
--   Apic       the local APIC in both modes; Apic/Events what the APIC is told, read off the accesses,
--              Apic/Quiet the same apart from the ends of interrupts, Apic/Ipi, Apic/Timer and Apic/Init
--              what the functions tell it
--   Smp        setup_trampoline, boot_ap, boot_all_aps, the start of ap_entry; Smp/Boot the interrupts
--              that are sent, Smp/Layout what a started processor finds in memory
--   Interrupts exception_handler and timer_interrupt_handler, with Interrupts/Names the names of the vectors,
--              Interrupts/Exceptions and Interrupts/Ticks what they do
--   Vmm        vmm_init, vmm_virt_to_phys, vmm_map_page, vmm_unmap_page; Vmm/Walk the tables that the
--              processor walks, Vmm/Loads what is found at the recursive addresses, Vmm/Exhausted the
--              functions where a table is missing, Vmm/Astray where the tables are there
--   Boot       kernel_main up to the search for the processors
--   Report     what kernel_main shows of the results
--   Main       kernel_main and ap_entry; Main/Endings where it ends, Main/Sequence what the APIC is told
--   Hybrid     what hybrid/boot has of its own: Hybrid/Services services.c, with Hybrid/Wire what it sends;
--              Hybrid/Features detect_cpu_features, with Hybrid/Answers what the answers of cpuid mean
--              and Hybrid/Report what is printed; Hybrid/BootInfo the structure of
--              hybrid/shared/boot_info.h, with Hybrid/Fill the loop that fills it;
--              Hybrid/Start kernel_main, with Hybrid/Memory, Hybrid/Handover and Hybrid/Endings how
--              far it gets
--   Examples   the theorems at concrete inputs, as in the other modules called Examples
--
-- A C function is a function on a record that holds the static variables it reads or writes, under
-- the C names. Memory is a function from addresses to bytes, and the fields of packed structs are
-- read from it at their offsets. An unsigned type is a natural number with the wrap-around written
-- out (`u64`, `sub64`); pointers and sizes are uint64_t. The linker's symbols are fields of the state.
--
-- `for` loops are `for_range`. The walk of parse_multiboot_mmap has no bound of its own and runs on
-- fuel; one unit for each eight bytes up to the tag where it stops is enough on well-formed
-- information. The walk over the MADT in acpi_parse_madt runs on fuel too; one unit for each byte of
-- the table is enough. The walk of pmm_mark_free_regions is bounded by the code's own hundred tags. A
-- division by zero is the outcome `divide_error`. The wait of putc for the serial port ends after a
-- number of reads that the state of the device gives.
--
-- The processor's answers to reads of its registers are one function of the accesses made so far, a
-- parameter of the state. So are the translation of virtual addresses and the values that the compiler
-- gives to `RECURSIVE_INDEX << 39` and `<< 30`, which C leaves undefined; the theorems on page tables ask
-- that canonical addresses be translated by a walk of four levels, and that the shifts be what gcc makes of
-- them, 0 and the low 32 bits with the sign extended. Loads and stores outside the page tables use
-- addresses that the boot code maps to themselves. In kernel_main and ap_entry what the other processors
-- and the interrupts do to the shared state is a function, applied at the end of each wait;
-- `barrier_wait` is such a wait there; its steps are in Barrier, and those of the tests in Concurrent.
--
-- What hybrid/boot/init.c and hybrid/boot/vga.h have in common with the files of c/kernel is modelled
-- once, from the latter. `zig_kernel_main` is the end of the model; a store past `boot_info.cpus` and what
-- lies on the stack after the digit of c_write_serial_hex are, as C leaves them open, an ending and a
-- parameter.
--
-- Not modelled: assembly (the boot code, the trampoline, the interrupt stubs) and the translation
-- buffer that invlpg flushes; the Zig kernels, and the earlier versions in archive, which are snapshots
-- of the same kernel.
pub mod Prelude
pub mod Vga
pub mod Serial
pub mod Console
pub mod Kernel
pub mod Memory
pub mod Pmm
pub mod Multiboot
pub mod Heap
pub mod Hybrid
pub mod Examples
pub mod Acpi
pub mod Idt
pub mod Parallel
pub mod Concurrent
pub mod Barrier
pub mod Device
pub mod Machine
pub mod Apic
pub mod Smp
pub mod Interrupts
pub mod Vmm
pub mod Boot
pub mod Report
pub mod Main
