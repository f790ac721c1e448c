-- ===== src/Acpi.antt =====
-- c/kernel/minimal_step9.c, ACPI: the root pointer is searched in the BIOS area, the MADT is searched
-- in the root table, and its enabled local APICs are the processors.
pub mod Search
pub mod Cpus
pub mod Examples
use zig_boot.Prelude.{
  ℕ, zero, suc, ◌+◌, ◌-◌, ◌*◌, ◌/◌, ◌%◌, ◌^◌, Bool, true, false, not, ◌&&◌, ◌==◌, ltb, leb,
  if◌then◌else◌, u8, u32, sub64, Array, store, read32, read64, for_range, List, [], ◌∷◌, Outcome,
  returns, out_of_fuel,
}
use zig_boot.Console.{text}
use zig_boot.Kernel.{Kernel, puts, print_dec}

abbrev pub acpi_search_start : ℕ
acpi_search_start = 0x000E0000

abbrev pub acpi_search_end : ℕ
acpi_search_end = 0x000FFFFF

abbrev pub max_cpus : ℕ
max_cpus = 16

-- How often a loop to an `int` runs whose 32 bits are `n`: not at all for a negative one.
abbrev pub int_rounds : ℕ → ℕ
int_rounds n = if ltb (u32 n) (2 ^ 31) then u32 n else 0

pub acpi_checksum : Array → ℕ → ℕ → Bool
acpi_checksum m ptr length =
    for_range (int_rounds length) 0 (λ i sum. u8 (sum + m (ptr + i))) 0 == 0

-- Do the characters stand at `ptr`?
pub has_text : Array → ℕ → List ℕ → Bool
has_text m ptr [] = true
has_text m ptr (c ∷ cs) = m ptr == c && has_text m (ptr + 1) cs

-- One candidate: the signature, then the checksum of 20 bytes.
pub is_rsdp : Array → ℕ → Bool
unfolding has_text acpi_checksum
is_rsdp m ptr = has_text m ptr (text "RSD PTR ") && acpi_checksum m ptr 20

-- The loop `for (; ptr < ACPI_SEARCH_END; ptr += 16)`, with `n` rounds of it left.
pub rsdp_loop : ℕ → Array → ℕ → ℕ
rsdp_loop zero m ptr = 0
rsdp_loop (suc n) m ptr = let rest = rsdp_loop n m (ptr + 16) in if is_rsdp m ptr then ptr else rest

pub acpi_find_rsdp : Array → ℕ
unfolding rsdp_loop
acpi_find_rsdp m = rsdp_loop ((acpi_search_end - acpi_search_start + 15) / 16) m acpi_search_start

-- `rsdp->revision >= 2 && rsdp->xsdt_address`; the fields are at 15, 16 and 24.
pub root_table : Array → ℕ → ℕ
root_table m rsdp =
    if leb 2 (m (rsdp + 15)) && not (read64 m (rsdp + 24) == 0)
    then read64 m (rsdp + 24)
    else read32 m (rsdp + 16)

-- `length` of `struct acpi_sdt_header`
abbrev pub sdt_length : Array → ℕ → ℕ
sdt_length m table = read32 m (table + 4)

-- The loop over the entries from the `i`-th on, `n` of them.
pub madt_loop : ℕ → ℕ → Array → ℕ → ℕ
madt_loop zero i m rsdt = 0
madt_loop (suc n) i m rsdt =
    let header = read32 m (rsdt + 36 + 4 * i) in
    let rest = madt_loop n (i + 1) m rsdt in
    if has_text m header (text "APIC") then header else rest

pub acpi_find_madt : Array → ℕ → ℕ
unfolding root_table
acpi_find_madt m rsdp =
    let rsdt = root_table m rsdp in
    if not (acpi_checksum m rsdt (sdt_length m rsdt))
    then 0
    else madt_loop (int_rounds (sub64 (sdt_length m rsdt) 36 / 4)) 0 m rsdt

-- `type == 0` and `lapic->flags & 0x1` for the entry at `ptr`.
pub is_cpu : Array → ℕ → Bool
is_cpu m ptr = m ptr == 0 && read32 m (ptr + 4) % 2 == 1

-- An enabled local APIC, whose identifier is kept if there is room for it.
pub add_cpu : ℕ → ℕ → Kernel → Kernel
add_cpu id count k0 =
    let k = puts (text ")\n") (
      print_dec id
        (puts (text " detected (APIC ID ") (print_dec count (puts (text "[ACPI] CPU ") k0)))) in
    if ltb count max_cpus then record k { cpu_apic_ids = store k.cpu_apic_ids count id } else k

-- The loop over the entries from `ptr` to `end`, which an entry of length 0 keeps going: `fuel` rounds.
pub lapic_loop : ℕ → ℕ → ℕ → ℕ → Kernel → Outcome (Kernel × ℕ)
lapic_loop zero ptr end count k = out_of_fuel
lapic_loop (suc fuel) ptr end count k =
    let found = is_cpu k.mem ptr in
    let rest =
      lapic_loop fuel (ptr + k.mem (ptr + 1)) end (if found then count + 1 else count)
        (if found then add_cpu (k.mem (ptr + 3)) count k else k) in
    if ltb ptr end then rest else returns (k, count)

pub acpi_parse_madt : ℕ → ℕ → Kernel → Outcome (Kernel × ℕ)
acpi_parse_madt fuel madt k = lapic_loop fuel (madt + 44) (madt + sdt_length k.mem madt) 0 k
