-- ===== src/Hybrid/Endings.antt =====
-- Where the search for processors of hybrid/boot/init.c ends.
use zig_boot.Prelude.{
  ℕ, suc, ◌≤◌, ◌≡◌, ◌≢◌, ◌∙◌, refl, inl, inr, arith, ◌==◌, Bool-cases, IsBytes, List, [], ◌∷◌,
  length, Outcome, returns,
}
use zig_boot.Console.{text}
use zig_boot.Machine.{Machine}
use zig_boot.Machine.Spoken.{Spoken, said}
use zig_boot.Acpi.{acpi_find_rsdp}
use zig_boot.Acpi.Cpus.{stored, stored-IsBytes, acpi_parse_madt-Counted}
use zig_boot.Boot.{puts_all}
use zig_boot.Main.{detected}
use zig_boot.Main.Sequence.{IsElsewhere}
use zig_boot.Main.Endings.{IsListed, madt_of}
use zig_boot.Hybrid.Start.{HandOff, no_rsdp, no_madt, detect_cpus}
use zig_boot.Hybrid.Handover.{Handed, start_and_hand_over-Handed}

-- How the search in the machine `m` ends, when the MADT, if there is one, lists the processors `ids`.
pub data HandsOver (m : Machine) (ids : List ℕ) : Outcome HandOff → Type 0 where
  without_rsdp :
      (t : Machine)
      → acpi_find_rsdp m.kernel.mem ≡ 0
      → Spoken m t
      → HandsOver m ids (returns (no_rsdp t))
  without_madt :
      (t : Machine)
      → acpi_find_rsdp m.kernel.mem ≢ 0
      → madt_of m ≡ 0
      → Spoken m t
      → HandsOver m ids (returns (no_madt t))
  with_cpus :
      (t : Machine) (e : HandOff)
      → acpi_find_rsdp m.kernel.mem ≢ 0
      → madt_of m ≢ 0
      → t.kernel.cpu_count ≡ length ids
      → ((i : ℕ) → t.kernel.cpu_apic_ids i ≡ stored ids 0 m.kernel.cpu_apic_ids i)
      → t.device ≡ m.device
      → Handed (acpi_find_rsdp m.kernel.mem) (madt_of m) t e
      → HandsOver m ids (returns e)

-- Without an RSDP, and without a MADT, the code halts after having only printed. With both, when the MADT
-- lists at least one processor, memory and the table of identifiers hold bytes, the other processors
-- and the interrupts tell the APIC nothing but ends of interrupts, and the fuel is enough for the
-- entries: at most sixteen processors are started, with nothing else told to the APIC but the settings
-- of the timer and ends of interrupts, and described to Zig; more of them overrun `boot_info.cpus`.
pub detect_cpus-HandsOver :
    (fuel : ℕ) (others : ℕ → Machine → Machine) (m : Machine) (ids : List ℕ)
    → IsElsewhere others
    → IsBytes m.kernel.mem
    → IsBytes m.kernel.cpu_apic_ids
    → 1 ≤ length ids
    → (madt_of m ≢ 0 → IsListed fuel m ids)
    → HandsOver m ids (detect_cpus (suc fuel) others m)
unfolding detect_cpus detected
detect_cpus-HandsOver fuel others m ids quiet mem table some_cpu listed =
    let rsdp = acpi_find_rsdp m.kernel.mem in
    elim (Bool-cases (rsdp == 0)) [
      | inl e ↦ rw e (without_rsdp _ (ground arith) said)
      | inr e ↦ elim (Bool-cases (madt_of m == 0)) [
        | inl f ↦ rw (e, f) (without_madt _ (ground arith) (ground arith) said)
        | inr f ↦
            let some_madt : madt_of m ≢ 0 = ground arith in
            let l = listed some_madt in
            let m2 =
              puts_all
                (text "\n[ACPI] Searching for RSDP...\n"
                  ∷ text "[ACPI] RSDP found!\n"
                  ∷ text "[ACPI] Searching for MADT...\n"
                  ∷ text "[ACPI] MADT found!\n"
                  ∷ text "[ACPI] Parsing MADT entries...\n"
                  ∷ [])
                m in
            let (r, parsed, c) =
              acpi_parse_madt-Counted fuel (madt_of m) ids m2.kernel l.entries l.enough in
            let t = detected r.1 r.0 m2 in
            let count : t.kernel.cpu_count ≡ length ids = c.total ∙ omega arith in
            let handed =
              start_and_hand_over-Handed others rsdp (madt_of m) t quiet (omega (arith, count))
                (λ i lt. omega (arith, c.table i, stored-IsBytes mem table l.entries i)) in
            rw (e, f, parsed) (with_cpus t _ (ground arith) some_madt count c.table refl handed)
      ]
    ]
