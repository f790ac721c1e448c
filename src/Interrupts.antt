-- ===== src/Interrupts.antt =====
-- c/kernel/minimal_step9.c, the handlers that the assembly stubs call: `exception_handler` and
-- `timer_interrupt_handler`.
pub mod Names
pub mod Exceptions
pub mod Ticks
use zig_boot.Prelude.{
  ℕ, zero, suc, ◌+◌, ◌-◌, ◌/◌, ◌%◌, ◌^◌, ◌==◌, ◌||◌, ltb, if◌then◌else◌, u32, u64, store, List, [],
  ◌∷◌,
}
use zig_boot.Console.{text}
use zig_boot.Device.{rdmsr}
use zig_boot.Machine.{Machine, puts, print_hex, print_hex_64, read}
use zig_boot.Acpi.{max_cpus}
use zig_boot.Apic.{in_x2apic, apic_read, send_eoi}

-- `exception_names`
abbrev exception_names : List (List ℕ)
exception_names =
    text "Division By Zero"
    ∷ text "Debug"
    ∷ text "Non-Maskable Interrupt"
    ∷ text "Breakpoint"
    ∷ text "Overflow"
    ∷ text "Bound Range Exceeded"
    ∷ text "Invalid Opcode"
    ∷ text "Device Not Available"
    ∷ text "Double Fault"
    ∷ text "Coprocessor Segment Overrun"
    ∷ text "Invalid TSS"
    ∷ text "Segment Not Present"
    ∷ text "Stack-Segment Fault"
    ∷ text "General Protection Fault"
    ∷ text "Page Fault"
    ∷ text "Reserved"
    ∷ text "x87 Floating-Point Exception"
    ∷ text "Alignment Check"
    ∷ text "Machine Check"
    ∷ text "SIMD Floating-Point Exception"
    ∷ text "Virtualization Exception"
    ∷ text "Control Protection Exception"
    ∷ text "Reserved"
    ∷ text "Reserved"
    ∷ text "Reserved"
    ∷ text "Reserved"
    ∷ text "Reserved"
    ∷ text "Reserved"
    ∷ text "Hypervisor Injection Exception"
    ∷ text "VMM Communication Exception"
    ∷ text "Security Exception"
    ∷ text "Reserved"
    ∷ []

name_at : ℕ → List (List ℕ) → List ℕ
name_at n [] = []
name_at zero (s ∷ names) = s
name_at (suc n) (s ∷ names) = name_at n names

-- The name that is printed for a vector.
pub exception_name : ℕ → List ℕ
unfolding name_at
exception_name vector =
    if ltb vector 32
    then name_at vector exception_names
    else if vector == 255
    then text "Spurious/Unhandled Interrupt"
    else text "Unknown Exception"

-- A handler returns to its stub, or halts the processor for ever.
pub data Handled : Type 0 where
  returned : Machine → Handled
  halted : Machine → Handled

-- What is printed for every vector; `print_hex` takes its low 32 bits.
pub report_exception : ℕ → ℕ → ℕ → Machine → Machine
unfolding exception_name
report_exception vector error_code rip m =
    let m1 = puts (text ")\n") (
      print_hex (u32 vector) (
        puts (text " (Vector ") (puts (exception_name vector) (puts (text "\n[EXCEPTION] ") m)))) in
    let m2 = puts (text "\n") (print_hex_64 error_code (puts (text "  Error Code: ") m1)) in
    puts (text "\n") (print_hex_64 rip (puts (text "  RIP: ") m2))

pub exception_handler : ℕ → ℕ → ℕ → Machine → Handled
unfolding report_exception
exception_handler vector error_code rip m =
    let t =
      report_exception vector error_code rip
        (record m { exception_count = u32 (m.exception_count + 1) }) in
    if vector == 3 || vector == 255
    then returned (puts (text "[INFO] Continuing execution...\n") t)
    else halted (puts (text "[HALT] System halted due to exception\n") t)

-- The number of the processor that runs the code, from its APIC.
pub current_apic_id : Machine → Machine × ℕ
current_apic_id m =
    if in_x2apic m
    then (let (t, id) = read (rdmsr 0x802) m in (t, u32 id))
    else (let (t, id) = apic_read 0x20 m in (t, id / 2 ^ 24))

pub count_tick : ℕ → Machine → Machine
count_tick apic_id m =
    if ltb apic_id max_cpus
    then record m { timer_ticks = store m.timer_ticks apic_id (u64 (m.timer_ticks apic_id + 1)) }
    else m

pub timer_interrupt_handler : Machine → Machine
unfolding current_apic_id count_tick
timer_interrupt_handler m =
    let (t, apic_id) =
      current_apic_id (record m { global_timer_calls = u64 (m.global_timer_calls + 1) }) in
    send_eoi (count_tick apic_id t)
