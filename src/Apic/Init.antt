-- ===== src/Apic/Init.antt =====
-- What `apic_init` leaves alone, and the mode it chooses.
use zig_boot.Prelude.{
  ℕ, ◌/◌, ◌%◌, ◌^◌, ◌≡◌, ◌∙◌, refl, inl, inr, ◌==◌, if◌then◌else◌, Bool-cases, u32, bit_and,
}
use zig_boot.Device as Device
use zig_boot.Device.{rdmsr, wrmsr, cpuid}
use zig_boot.Console.{text}
use zig_boot.Machine.{Machine, puts, read}
use zig_boot.Apic.{
  in_x2apic, apic_base_msr, apic_base_enable, apic_read, apic_write, spurious, disable_pic,
  enable_base, find_xapic, start_xapic, enter_x2apic, apic_init_x2apic, apic_init_xapic, apic_init,
}

-- The list of processors and the symbols are the same.
pub record Keeps (m t : Machine) : Type 0 where
  pub symbols : t.symbols ≡ m.symbols
  pub ids : t.kernel.cpu_apic_ids ≡ m.kernel.cpu_apic_ids
  pub count : t.kernel.cpu_count ≡ m.kernel.cpu_count
  pub memory : t.kernel.mem ≡ m.kernel.mem

Keeps-trans : {m t u : Machine} → Keeps m t → Keeps t u → Keeps m u
Keeps-trans a b = record {
  symbols = b.symbols ∙ a.symbols;
  ids = b.ids ∙ a.ids;
  count = b.count ∙ a.count;
  memory = b.memory ∙ a.memory;
}

Keeps-if : {m t u : Machine} (b : _) → Keeps m t → Keeps m u → Keeps m (if b then t else u)
Keeps-if b p q = elim (Bool-cases b) [ inl e ↦ rw e p | inr e ↦ rw e q ]

write-Keeps : (reg value : ℕ) (m : Machine) → Keeps m (apic_write reg value m)
unfolding apic_write
write-Keeps reg value m = Keeps-if (in_x2apic m) kept kept
  where
    kept : {l : Device.Device} → Keeps m (record m { device = l })
    kept = record { symbols = refl; ids = refl; count = refl; memory = refl }

read-Keeps : (reg : ℕ) (m : Machine) → Keeps m (apic_read reg m).0
unfolding apic_read
read-Keeps reg m = elim (Bool-cases (in_x2apic m)) [
  | inl e ↦ rw e (record { symbols = refl; ids = refl; count = refl; memory = refl })
  | inr e ↦ rw e (record { symbols = refl; ids = refl; count = refl; memory = refl })
]

enable-Keeps : (msr : ℕ) (m : Machine) → Keeps m (enable_base msr m)
unfolding enable_base
enable-Keeps msr m =
    Keeps-if (bit_and msr apic_base_enable == 0)
      (record { symbols = refl; ids = refl; count = refl; memory = refl })
      (record { symbols = refl; ids = refl; count = refl; memory = refl })

enter-Keeps : (m : Machine) → Keeps m (enter_x2apic m)
unfolding enter_x2apic
enter-Keeps m =
    let (m1, msr) = read (rdmsr apic_base_msr) m in
    let k = enable-Keeps msr m1 in
    record { symbols = k.symbols; ids = k.ids; count = k.count; memory = k.memory }

x2apic-Keeps : (m : Machine) → Keeps m (apic_init_x2apic m)
unfolding apic_init_x2apic
x2apic-Keeps m =
    let k = enter-Keeps (puts (text "[APIC] x2APIC supported - enabling x2APIC mode\n") m) in
    record { symbols = k.symbols; ids = k.ids; count = k.count; memory = k.memory }

find_xapic-Keeps : (m : Machine) → Keeps m (find_xapic m)
unfolding find_xapic
find_xapic-Keeps m =
    let msr =
      (read (rdmsr apic_base_msr)
        (puts (text "[APIC] x2APIC not available - using xAPIC mode\n") m)).1 in
    Keeps-if (bit_and msr apic_base_enable == 0)
      (record { symbols = refl; ids = refl; count = refl; memory = refl })
      (record { symbols = refl; ids = refl; count = refl; memory = refl })

start_xapic-Keeps : (m : Machine) → Keeps m (start_xapic m)
unfolding start_xapic
start_xapic-Keeps m =
    let m1 = puts (text "[APIC] Enabling APIC (SVR register)...\n") m in
    let m2 = apic_write 0xF0 spurious m1 in
    let m3 = apic_write 0x80 0 m2 in
    let a = Keeps-trans (write-Keeps 0xF0 spurious m1) (write-Keeps 0x80 0 m2) in
    let k = Keeps-trans a (read-Keeps 0x20 m3) in
    record { symbols = k.symbols; ids = k.ids; count = k.count; memory = k.memory }

xapic-Keeps : (m : Machine) → Keeps m (apic_init_xapic m)
unfolding apic_init_xapic
xapic-Keeps m = Keeps-trans (find_xapic-Keeps m) (start_xapic-Keeps (find_xapic m))

-- `apic_init` finds the processors, the symbols and memory as it leaves them.
pub apic_init-Keeps : (m : Machine) → Keeps m (apic_init m)
unfolding apic_init disable_pic
apic_init-Keeps m =
    let (t, ecx) =
      read (cpuid 1 2) (disable_pic (puts (text "\n[APIC] Initializing Local APIC...\n") m)) in
    let k = Keeps-if (u32 ecx / 2 ^ 21 % 2 == 1) (x2apic-Keeps t) (xapic-Keeps t) in
    record { symbols = k.symbols; ids = k.ids; count = k.count; memory = k.memory }
