-- ===== src/Smp.antt =====
-- c/kernel/minimal_step9.c, the start of the other processors: the trampoline, the delays, the
-- INIT-SIPI-SIPI sequence, and the part of `ap_entry` before its tests.
pub mod Boot
pub mod Layout
use zig_boot.Prelude.{
  ℕ, zero, suc, ◌+◌, ◌-◌, ◌*◌, ◌/◌, ◌%◌, ◌^◌, ◌==◌, leb, if◌then◌else◌, bit_and, bit_or, u32, sub64,
  write64, for_range,
}
use zig_boot.Console.{text}
use zig_boot.Memory.{memcpy}
use zig_boot.Device.{rdmsr, wrmsr, read_cr3, pauses, wbinvd, sti}
use zig_boot.Idt.{idt_load}
use zig_boot.Apic.{
  apic_base_msr, apic_base_enable, spurious, in_x2apic, apic_write, enter_x2apic, apic_timer_init,
  apic_wait_icr, send_ipi,
}
use zig_boot.Machine.{Machine, puts, print_dec, perform, read}

abbrev pub ap_stack_size : ℕ
ap_stack_size = 8192

-- Where the trampoline runs.
abbrev pub trampoline : ℕ
trampoline = 0x8000

abbrev pub trampoline_size : Machine → ℕ
trampoline_size m = sub64 m.symbols.trampoline_end m.symbols.trampoline_start

-- A 64-bit store to memory.
abbrev pub poke : ℕ → ℕ → Machine → Machine
poke a v m = record m { kernel = record m.kernel { mem = write64 m.kernel.mem a v } }

unfoldable pub setup_trampoline : Machine → Machine
setup_trampoline m0 =
    let size = trampoline_size m0 in
    let m1 = puts (text " bytes\n") (
      print_dec (u32 size) (
        puts (text "[SMP] Trampoline size: ")
          (puts (text "\n[SMP] Setting up trampoline...\n") m0))) in
    let m2 = record m1 {
      kernel = record m1.kernel {
        mem = memcpy trampoline m1.symbols.trampoline_start size m1.kernel.mem;
      };
    } in
    let (m3, cr3) = read read_cr3 (puts (text "[SMP] Trampoline copied to 0x8000\n") m2) in
    let m4 =
      poke (trampoline + size - 8) m3.symbols.ap_entry_address
        (poke (trampoline + size - 16) 0 (poke (trampoline + size - 24) cr3 m3)) in
    puts (text "[SMP] Trampoline configured\n") (perform wbinvd m4)

pub udelay : ℕ → Machine → Machine
udelay usec m = perform (pauses (usec * 10)) m

pub mdelay : ℕ → Machine → Machine
unfolding udelay
mdelay msec m = for_range msec 0 (λ i t. udelay 1000 t) m

-- `APIC_INT_LEVELTRIG | APIC_INT_ASSERT | APIC_DM_INIT`, the same without the assertion, and
-- `APIC_DM_STARTUP | (start_eip >> 12)`.
abbrev pub init_assert : ℕ
init_assert = bit_or (bit_or 0x8000 0x4000) 0x500

abbrev pub init_deassert : ℕ
init_deassert = bit_or 0x8000 0x500

abbrev pub startup : ℕ
startup = bit_or 0x600 (trampoline / 2 ^ 12)

-- `send_ipi(apic_id, flags); apic_wait_icr();`
pub send_and_wait : ℕ → ℕ → Machine → Machine
send_and_wait apic_id flags m = apic_wait_icr (send_ipi apic_id flags m)

-- The stack pointer of the processor, at the end of the trampoline.
pub patch_stack : ℕ → Machine → Machine
patch_stack cpu_idx m = perform wbinvd (
    poke (trampoline + trampoline_size m - 16)
      (m.symbols.ap_stacks + cpu_idx * ap_stack_size + ap_stack_size) m)

-- INIT, its end, and twice SIPI, with the delays.
pub wake : ℕ → Machine → Machine
unfolding send_and_wait mdelay udelay
wake apic_id m =
    let m1 = mdelay 10 (send_and_wait apic_id init_assert m) in
    let m2 = send_and_wait apic_id startup (send_and_wait apic_id init_deassert m1) in
    udelay 200 (send_and_wait apic_id startup (udelay 200 m2))

pub boot_ap : ℕ → Machine → Machine
unfolding patch_stack wake
boot_ap cpu_idx m =
    if cpu_idx == 0
    then m
    else if leb m.kernel.cpu_count cpu_idx
    then m
    else wake (m.kernel.cpu_apic_ids cpu_idx) (patch_stack cpu_idx m)

pub boot_all_aps : Machine → Machine
boot_all_aps m =
    perform (pauses 1000000)
      (for_range (m.kernel.cpu_count - 1) 1 boot_ap (record m { cpus_online = 1 }))

-- The local APIC of a processor that was started is enabled in the mode of the first one.
pub enable_ap_apic : Machine → Machine
enable_ap_apic m =
    if in_x2apic m
    then perform (wrmsr 0x808 0) (perform (wrmsr 0x80F spurious) (enter_x2apic m))
    else let (t, msr) = read (rdmsr apic_base_msr) m in
      let u =
        if bit_and msr apic_base_enable == 0
        then perform (wrmsr apic_base_msr (bit_or msr apic_base_enable)) t
        else t in
      apic_write 0x80 0 (apic_write 0xF0 spurious u)

-- `ap_entry` up to its tests; the number of the processor is what `cpus_online` was.
pub ap_start : Machine → Machine × ℕ
unfolding enable_ap_apic
ap_start m =
    let m1 = record m { cpus_online = u32 (m.cpus_online + 1); idt = idt_load m.idt } in
    (apic_timer_init (perform sti (perform (pauses 100000) (enable_ap_apic m1))), m.cpus_online)
