-- ===== src/Apic.antt =====
-- c/kernel/minimal_step9.c, the local APIC: its registers in both modes, `apic_init`, the timer, and
-- interprocessor interrupts. The modes are xAPIC (mapped registers) and x2APIC (model specific ones).
pub mod Events
pub mod Quiet
pub mod Timer
pub mod Ipi
pub mod Init
use zig_boot.Prelude.{
  ℕ, zero, suc, ◌+◌, ◌-◌, ◌*◌, ◌/◌, ◌%◌, ◌^◌, Bool, not, ◌==◌, if◌then◌else◌, bit_and, bit_or, u32,
  u64, store,
}
use zig_boot.Console.{text}
use zig_boot.Device.{rdmsr, wrmsr, mmio_read, mmio_write, outb, cpuid, pauses}
use zig_boot.Machine.{Machine, puts, print_dec, perform, read}

abbrev pub apic_base_msr : ℕ
apic_base_msr = 0x1B

abbrev pub apic_base_enable : ℕ
apic_base_enable = 2 ^ 11

abbrev pub x2apic_enable : ℕ
x2apic_enable = 2 ^ 10

abbrev pub spurious : ℕ
spurious = bit_or 0x100 0xFF

-- `if (use_x2apic)`
abbrev pub in_x2apic : Machine → Bool
in_x2apic m = not (m.use_x2apic == 0)

-- The MSR and the address of a register that is named by its offset.
abbrev pub register_msr : ℕ → ℕ
register_msr reg = 0x800 + reg / 2 ^ 4

abbrev pub register_address : ℕ → Machine → ℕ
register_address reg m = m.apic_base + 4 * (reg / 2 ^ 2)

unfoldable pub apic_read : ℕ → Machine → Machine × ℕ
apic_read reg m =
    let (t, value) =
      if in_x2apic m
      then read (rdmsr (register_msr reg)) m
      else read (mmio_read (register_address reg m)) m in
    (t, u32 value)

unfoldable pub apic_write : ℕ → ℕ → Machine → Machine
apic_write reg value m =
    if in_x2apic m
    then perform (wrmsr (register_msr reg) value) m
    else perform (mmio_write (register_address reg m) value) m

unfoldable pub send_eoi : Machine → Machine
unfolding apic_write
send_eoi m = if in_x2apic m then perform (wrmsr 0x80B 0) m else apic_write 0xB0 0 m

pub disable_pic : Machine → Machine
disable_pic m = puts (text "[PIC] Legacy PIC disabled\n") (
    perform (outb 0xA1 0xFF)
      (perform (outb 0x21 0xFF) (puts (text "[PIC] Disabling legacy 8259 PIC...\n") m)))

-- `if (!(apic_msr & APIC_BASE_ENABLE)) { apic_msr |= APIC_BASE_ENABLE; wrmsr(…); }`
pub enable_base : ℕ → Machine → Machine
enable_base msr m =
    if bit_and msr apic_base_enable == 0
    then perform (wrmsr apic_base_msr (bit_or msr apic_base_enable)) m
    else m

pub enabled_base : ℕ → ℕ
enabled_base msr = if bit_and msr apic_base_enable == 0 then bit_or msr apic_base_enable else msr

-- The accesses of both `apic_init` and `ap_entry` that switch x2APIC mode on.
pub enter_x2apic : Machine → Machine
unfolding enable_base enabled_base
enter_x2apic m =
    let (m1, msr) = read (rdmsr apic_base_msr) m in
    perform (wrmsr apic_base_msr (bit_or (enabled_base msr) x2apic_enable)) (enable_base msr m1)

pub apic_init_x2apic : Machine → Machine
unfolding enter_x2apic
apic_init_x2apic m0 =
    let m = enter_x2apic (puts (text "[APIC] x2APIC supported - enabling x2APIC mode\n") m0) in
    let m1 =
      perform (wrmsr 0x808 0) (perform (wrmsr 0x80F spurious) (record m { use_x2apic = 1 })) in
    let (m2, id) = read (rdmsr 0x802) m1 in
    puts (text "\n") (
      print_dec (u32 id) (
        puts (text "[APIC] BSP APIC ID: ")
          (puts (text "[APIC] x2APIC mode enabled (MSR-based)\n") m2)))

-- Where the registers are, and the enable bit of the base register.
pub find_xapic : Machine → Machine
find_xapic m0 =
    let (m1, msr) =
      read (rdmsr apic_base_msr)
        (puts (text "[APIC] x2APIC not available - using xAPIC mode\n") m0) in
    let m2 = record (puts (text "[APIC] Physical address: 0xFEE00000 (default)\n") m1) {
      apic_base = bit_and msr 0xFFFFF000;
    } in
    if bit_and msr apic_base_enable == 0
    then perform (wrmsr apic_base_msr (bit_or msr apic_base_enable))
        (puts (text "[APIC] Enabling APIC in MSR...\n") m2)
    else m2

-- The writes go through `apic_write`, which still looks at the old value of `use_x2apic`.
pub start_xapic : Machine → Machine
unfolding apic_write apic_read
start_xapic m =
    let m1 =
      apic_write 0x80 0
        (apic_write 0xF0 spurious (puts (text "[APIC] Enabling APIC (SVR register)...\n") m)) in
    let (m2, id) = apic_read 0x20 m1 in
    let m3 = puts (text "\n") (print_dec (id / 2 ^ 24) (puts (text "[APIC] BSP APIC ID: ") m2)) in
    record m3 { use_x2apic = 0 }

pub apic_init_xapic : Machine → Machine
unfolding find_xapic start_xapic
apic_init_xapic m = start_xapic (find_xapic m)

-- Bit 21 of ECX of leaf 1 says whether x2APIC mode is there.
pub apic_init : Machine → Machine
unfolding disable_pic apic_init_x2apic apic_init_xapic
apic_init m0 =
    let (m, ecx) =
      read (cpuid 1 2) (disable_pic (puts (text "\n[APIC] Initializing Local APIC...\n") m0)) in
    let t = if u32 ecx / 2 ^ 21 % 2 == 1 then apic_init_x2apic m else apic_init_xapic m in
    puts (text "[APIC] Local APIC initialized successfully!\n") t

-- A register of the timer is written, or read into `timer_init_debug`, in the mode's own way.
pub write_timer : ℕ → ℕ → Machine → Machine
unfolding apic_write
write_timer reg value m =
    if in_x2apic m then perform (wrmsr (register_msr reg) value) m else apic_write reg value m

pub debug_timer : ℕ → ℕ → Machine → Machine
unfolding apic_read
debug_timer i reg m =
    let (t, value) = if in_x2apic m then read (rdmsr (register_msr reg)) m else apic_read reg m in
    record t { timer_init_debug = store t.timer_init_debug i (u32 value) }

-- `(APIC_TIMER_PERIODIC | TIMER_VECTOR) & ~(1 << 16)`
abbrev pub lvt_timer : ℕ
lvt_timer = bit_and (bit_or 0x20000 32) (2 ^ 32 - 1 - 2 ^ 16)

pub apic_timer_init : Machine → Machine
unfolding write_timer debug_timer
apic_timer_init m =
    let m1 = debug_timer 2 0x3E0 (write_timer 0x3E0 0x3 m) in
    let m2 = debug_timer 1 0x320 (write_timer 0x320 lvt_timer (debug_timer 0 0x320 m1)) in
    debug_timer 3 0x380 (write_timer 0x380 10000000 m2)

-- `while ((apic_read(APIC_ICR_LOW) & (1 << 12)) && timeout--) pause;`
pub icr_loop : ℕ → Machine → Machine
unfolding apic_read
icr_loop zero m = (apic_read 0x300 m).0
icr_loop (suc timeout) m =
    let (t, low) = apic_read 0x300 m in
    let rest = icr_loop timeout (perform (pauses 1) t) in
    if bit_and low (2 ^ 12) == 0 then t else rest

pub apic_wait_icr : Machine → Machine
apic_wait_icr m = if in_x2apic m then m else icr_loop 1000000 m

pub send_ipi : ℕ → ℕ → Machine → Machine
unfolding apic_write
send_ipi apic_id flags m =
    if in_x2apic m
    then perform (wrmsr 0x830 (bit_or (u64 (apic_id * 2 ^ 32)) flags)) m
    else apic_wait_icr
        (apic_write 0x300 flags (apic_write 0x310 (u32 (apic_id * 2 ^ 24)) (apic_wait_icr m)))
