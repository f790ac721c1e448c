-- ===== src/Main/Endings.antt =====
-- Where `kernel_main` ends.
use zig_boot.Prelude.{ℕ, ◌+◌, ◌≤◌, ◌≡◌, ◌≢◌, ap, List, length, Outcome, returns}
use zig_boot.Machine.{Machine}
use zig_boot.Machine.Spoken.{Spoken}
use zig_boot.Acpi.{acpi_find_rsdp, acpi_find_madt, sdt_length}
use zig_boot.Acpi.Cpus.{Entries, stored}
use zig_boot.Vmm.{Mmu, frame}
use zig_boot.Vmm.Init.{next_cr3}
use zig_boot.Boot.Start.{IsBootable}
use zig_boot.Boot.Finish.{IsBooted, boot_memory-IsBooted}
use zig_boot.Boot.{and_then, boot_tables}
use zig_boot.Main.{Ending, no_rsdp, no_madt, finished, run_cpus, find_cpus, kernel_main}

-- How the search in the machine `m` ends, when the MADT, if there is one, lists the processors `ids`.
pub data Ends (others : ℕ → Machine → Machine) (m : Machine) (ids : List ℕ)
    : Outcome Ending → Type 0 where
  without_rsdp :
      (t : Machine)
      → acpi_find_rsdp m.kernel.mem ≡ 0
      → Spoken m t
      → Ends others m ids (returns (no_rsdp t))
  without_madt :
      (t : Machine)
      → acpi_find_rsdp m.kernel.mem ≢ 0
      → acpi_find_madt m.kernel.mem (acpi_find_rsdp m.kernel.mem) ≡ 0
      → Spoken m t
      → Ends others m ids (returns (no_madt t))
  with_cpus :
      (t : Machine)
      → acpi_find_rsdp m.kernel.mem ≢ 0
      → acpi_find_madt m.kernel.mem (acpi_find_rsdp m.kernel.mem) ≢ 0
      → t.kernel.cpu_count ≡ length ids
      → ((i : ℕ) → t.kernel.cpu_apic_ids i ≡ stored ids 0 m.kernel.cpu_apic_ids i)
      → t.device ≡ m.device
      → Ends others m ids (returns (finished (run_cpus others t)))

abbrev pub madt_of : Machine → ℕ
madt_of m = acpi_find_madt m.kernel.mem (acpi_find_rsdp m.kernel.mem)

-- The MADT of the machine lists the processors `ids`, and `fuel` rounds are enough for its entries.
pub record IsListed (fuel : ℕ) (m : Machine) (ids : List ℕ) : Type 0 where
  pub entries :
      Entries m.kernel.mem (madt_of m + sdt_length m.kernel.mem (madt_of m)) (madt_of m + 44) ids
  pub enough : sdt_length m.kernel.mem (madt_of m) ≤ 44 + fuel

-- `kernel_main` gets through the memory phase, with the memory managers as `IsBooted` says, and goes
-- on with the descriptor table and the search for the processors, when the tables that `cr3` names
-- lie below the end of the kernel.
pub kernel_main-IsBooted :
    (fuel info stop : ℕ) (mmu : Mmu) (others : ℕ → Machine → Machine) (m : Machine)
    → IsBootable fuel info stop m.kernel
    → frame (next_cr3 m) + 4096 ≤ m.kernel.kernel_end
    → (t : Machine) × IsBooted stop (frame (next_cr3 m)) m.kernel t.kernel
      × (kernel_main fuel mmu others info m ≡ find_cpus fuel others (boot_tables t))
unfolding kernel_main
kernel_main-IsBooted fuel info stop mmu others m b table =
    let (t, e, booted) = boot_memory-IsBooted fuel info stop mmu m b table in
    (t, booted, ap (λ r. and_then r (λ x. find_cpus fuel others (boot_tables x))) e)
