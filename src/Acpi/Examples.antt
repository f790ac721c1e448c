-- ===== src/Acpi/Examples.antt =====
-- The theorems on ACPI at concrete tables: a root pointer at 0x1000, a root table at 0x2000 with one
-- entry, and a MADT at 0x3000 with an enabled processor of APIC ID 5 and a disabled one.
use zig_boot.Prelude.{
  ℕ, zero, suc, ◌+◌, ◌-◌, ◌*◌, ◌≡◌, ◌∙◌, ap, refl, true, ◌&&◌, leb, ltb, for_range, arith, ◌==◌,
  if◌then◌else◌, Array, read16, read32, read64, sum_to, [], ◌∷◌,
}
use zig_boot.Console.{text}
use zig_boot.Kernel.{Kernel}
use zig_boot.Acpi.{
  has_text, is_cpu, acpi_checksum, acpi_find_rsdp, acpi_find_madt, root_table, madt_loop,
}
use zig_boot.Acpi.Search.{starts_rsdp, FirstOf, found, missing, acpi_find_rsdp-FirstOf}
use zig_boot.Acpi.Cpus.{Entries, past, cpu, other}

abbrev tables : Array
tables a =
    if a == 0x1011
    then 0x20
    else if a == 0x2004
    then 40
    else if a == 0x2009
    then 168
    else if a == 0x2025
    then 0x30
    else if a == 0x3000
    then 0x41
    else if a == 0x3001
    then 0x50
    else if a == 0x3002
    then 0x49
    else if a == 0x3003
    then 0x43
    else if a == 0x3004
    then 60
    else if a == 0x302D
    then 8
    else if a == 0x302F
    then 5
    else if a == 0x3030
    then 1
    else if a == 0x3035
    then 8
    else 0

acpi_find_rsdp-FirstOf_example :
    FirstOf 8192 (λ i. 0xE0000 + 16 * i) (starts_rsdp tables) (acpi_find_rsdp tables)
acpi_find_rsdp-FirstOf_example = acpi_find_rsdp-FirstOf tables

root_example : root_table tables 0x1000 ≡ 0x2000
unfolding root_table read16 read32 read64
root_example = refl

-- The same tables behind a root pointer at the start of the searched area.
abbrev rsdp_byte : ℕ → ℕ
rsdp_byte i =
    if i == 0
    then 0x52
    else if i == 1
    then 0x53
    else if i == 2
    then 0x44
    else if i == 3
    then 0x20
    else if i == 4
    then 0x50
    else if i == 5
    then 0x54
    else if i == 6
    then 0x52
    else if i == 7
    then 0x20
    else if i == 8
    then 193
    else if i == 17
    then 0x20
    else 0

abbrev pub bios : Array
bios a = if leb 0xE0000 a && ltb a 0xE0014 then rsdp_byte (a - 0xE0000) else tables a

bios_signature : starts_rsdp bios 0xE0000 ≡ true
unfolding sum_to
bios_signature = refl

first_found : (r : ℕ) → FirstOf 8192 (λ i. 0xE0000 + 16 * i) (starts_rsdp bios) r → r ≡ 0xE0000
first_found r (found zero lt at valid before) = at
first_found r (found (suc i) lt at valid before) = absurd (ground (arith, bios_signature, before 0))
first_found r (missing none) = absurd (ground (arith, bios_signature, none 0))

bios_rsdp : acpi_find_rsdp bios ≡ 0xE0000
bios_rsdp = first_found (acpi_find_rsdp bios) (acpi_find_rsdp-FirstOf bios)

madt_at : acpi_find_madt bios 0xE0000 ≡ 0x3000
unfolding acpi_find_madt root_table acpi_checksum madt_loop has_text text read16 read32 read64
    for_range
madt_at = refl

pub bios_madt : acpi_find_madt bios (acpi_find_rsdp bios) ≡ 0x3000
bios_madt = ap (acpi_find_madt bios) bios_rsdp ∙ madt_at

pub bios-Entries : Entries bios 0x303C 0x302C (5 ∷ [])
unfolding is_cpu read16 read32
bios-Entries =
    cpu (omega arith) refl (omega arith)
      (other (omega arith) refl (omega arith) (past (omega arith)))
