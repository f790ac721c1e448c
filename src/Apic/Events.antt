-- ===== src/Apic/Events.antt =====
-- What the local APIC is told, read off the accesses that were made: it is the same in both modes.
use mathlib.Core.List.{append_assoc}
use zig_boot.Prelude.{
  ℕ, ◌+◌, ◌-◌, ◌*◌, ◌/◌, ◌%◌, ◌^◌, ◌≡◌, ◌≢◌, refl, sym, subst, ap, ◌∙◌, inl, inr, Bool, true, false,
  not, ◌&&◌, arith, ◌==◌, leb, if◌then◌else◌, Bool-cases, List, [], ◌∷◌, ◌++◌,
}
use zig_boot.Device.{
  Access, rdmsr, wrmsr, mmio_read, mmio_write, outb, cpuid, read_cr3, write_cr3, pauses, wbinvd,
  sti,
}
use zig_boot.Device as Device
use zig_boot.Machine.{Machine, perform, read}
use zig_boot.Apic.{send_eoi, in_x2apic, register_msr, register_address, apic_read, apic_write}

-- An interprocessor interrupt with its destination and its flags, or a value for a register.
pub data ApicEvent : Type 0 where
  ipi : ℕ → ℕ → ApicEvent
  setting : ℕ → ℕ → ApicEvent

-- The last value of the high half of the interrupt command register.
unfoldable pub high_half : ℕ → List Access → ℕ
high_half base [] = 0
high_half base (mmio_write a v ∷ l) = if a == base + 0x310 then v else high_half base l
high_half base (_ ∷ l) = high_half base l

-- In x2APIC mode the command is one register of 64 bits; in xAPIC mode the write of its low half
-- sends it, with the destination in the top byte of the high half.
unfoldable pub events : Bool → ℕ → List Access → List ApicEvent
events x2 base [] = []
events x2 base (wrmsr r v ∷ l) =
    if x2 && leb 0x800 r
    then (if r == 0x830 then ipi (v / 2 ^ 32) (v % 2 ^ 32) else setting ((r - 0x800) * 16) v)
      ∷ events x2 base l
    else events x2 base l
events x2 base (mmio_write a v ∷ l) =
    if not x2 && leb base a && not (a == base + 0x310)
    then (if a == base + 0x300 then ipi (high_half base l / 2 ^ 24) v else setting (a - base) v)
      ∷ events x2 base l
    else events x2 base l
events x2 base (_ ∷ l) = events x2 base l

abbrev pub seen : Machine → List ApicEvent
seen m = events (not (m.use_x2apic == 0)) m.apic_base m.device.log

-- From `m` to `t` the APIC has seen the events `es`, the newest first; the mode, where the APIC is,
-- the list of processors and the symbols are the same.
pub record Emits (m t : Machine) (es : List ApicEvent) : Type 0 where
  pub mode : t.use_x2apic ≡ m.use_x2apic
  pub base : t.apic_base ≡ m.apic_base
  pub symbols : t.symbols ≡ m.symbols
  pub ids : t.kernel.cpu_apic_ids ≡ m.kernel.cpu_apic_ids
  pub count : t.kernel.cpu_count ≡ m.kernel.cpu_count
  pub told : seen t ≡ es ++ seen m

pub Emits-trans :
    {m t u : Machine} {es fs : List ApicEvent} → Emits m t es → Emits t u fs → Emits m u (fs ++ es)
Emits-trans {m} {t} {u} {es} {fs} a b = record {
  mode = b.mode ∙ a.mode;
  base = b.base ∙ a.base;
  symbols = b.symbols ∙ a.symbols;
  ids = b.ids ∙ a.ids;
  count = b.count ∙ a.count;
  told = b.told ∙ ap (λ l. fs ++ l) a.told ∙ sym (append_assoc fs es (seen m));
}

pub Emits-refl : (m : Machine) → Emits m m []
Emits-refl m = record {
  mode = refl;
  base = refl;
  symbols = refl;
  ids = refl;
  count = refl;
  told = refl;
}

-- An access that is no write to the APIC.
abbrev pub IsQuiet : Access → Type 0
IsQuiet (wrmsr r v) = ⊥
IsQuiet (mmio_write a v) = ⊥
IsQuiet _ = Unit

quiet_event :
    (a : Access) (x2 : Bool) (base : ℕ) (l : List Access)
    → IsQuiet a
    → events x2 base (a ∷ l) ≡ events x2 base l
unfolding events
quiet_event (rdmsr r) x2 base l q = refl
quiet_event (wrmsr r v) x2 base l q = elim q [ ]
quiet_event (mmio_read a) x2 base l q = refl
quiet_event (mmio_write a v) x2 base l q = elim q [ ]
quiet_event (outb p v) x2 base l q = refl
quiet_event (cpuid n r) x2 base l q = refl
quiet_event read_cr3 x2 base l q = refl
quiet_event (write_cr3 v) x2 base l q = refl
quiet_event (pauses n) x2 base l q = refl
quiet_event wbinvd x2 base l q = refl
quiet_event sti x2 base l q = refl

pub perform-Emits : (a : Access) (m : Machine) → IsQuiet a → Emits m (perform a m) []
unfolding Device.perform
perform-Emits a m q = record {
  mode = refl;
  base = refl;
  symbols = refl;
  ids = refl;
  count = refl;
  told = quiet_event a (in_x2apic m) m.apic_base m.device.log q;
}

pub read-Emits : (a : Access) (m : Machine) → IsQuiet a → Emits m (read a m).0 []
unfolding Device.read
read-Emits a m q = record {
  mode = refl;
  base = refl;
  symbols = refl;
  ids = refl;
  count = refl;
  told = quiet_event a (in_x2apic m) m.apic_base m.device.log q;
}

pub apic_read-Emits : (reg : ℕ) (m : Machine) → Emits m (apic_read reg m).0 []
unfolding apic_read
apic_read-Emits reg m = elim (Bool-cases (in_x2apic m)) [
  | inl x2 ↦ rw x2 (read-Emits (rdmsr (register_msr reg)) m tt)
  | inr x ↦ rw x (read-Emits (mmio_read (register_address reg m)) m tt)
]

-- A register other than the two of the interrupt command.
abbrev pub IsSetting : ℕ → Type 0
IsSetting reg = (reg % 16 ≡ 0) × (reg ≢ 0x300) × (reg ≢ 0x310)

msr_event :
    (reg v base : ℕ) (l : List Access)
    → IsSetting reg
    → events true base (wrmsr (register_msr reg) v ∷ l) ≡ setting reg v ∷ events true base l
unfolding events
msr_event reg v base l (al, low, high) =
    let in_range : leb 0x800 (register_msr reg) ≡ true = ground arith in
    let other : (register_msr reg == 0x830) ≡ false = ground arith in
    let same : (register_msr reg - 0x800) * 16 ≡ reg = omega arith in
    rw (in_range, other, same) refl

mmio_event :
    (reg v : ℕ) (m : Machine) (l : List Access)
    → IsSetting reg
    → events false m.apic_base (mmio_write (register_address reg m) v ∷ l)
      ≡ setting reg v ∷ events false m.apic_base l
unfolding events
mmio_event reg v m l (al, low, high) =
    let address : register_address reg m ≡ m.apic_base + reg = omega arith in
    let in_range : leb m.apic_base (m.apic_base + reg) ≡ true = ground arith in
    let not_high : (m.apic_base + reg == m.apic_base + 0x310) ≡ false = ground arith in
    let not_low : (m.apic_base + reg == m.apic_base + 0x300) ≡ false = ground arith in
    let same : m.apic_base + reg - m.apic_base ≡ reg = omega arith in
    rw (address, in_range, not_high, not_low, same) refl

-- An access that the APIC sees as the event `e`.
pub write-Emits :
    (a : Access) (m : Machine) (e : ApicEvent) (b : Bool)
    → in_x2apic m ≡ b
    → events b m.apic_base (a ∷ m.device.log) ≡ e ∷ events b m.apic_base m.device.log
    → Emits m (perform a m) (e ∷ [])
unfolding Device.perform
write-Emits a m e b mode h = record {
  mode = refl;
  base = refl;
  symbols = refl;
  ids = refl;
  count = refl;
  told =
      let l = m.device.log in
      subst (λ c. events c m.apic_base (a ∷ l) ≡ e ∷ events c m.apic_base l) (sym mode) h;
}

pub msr-Emits :
    (reg value : ℕ) (m : Machine)
    → in_x2apic m ≡ true
    → IsSetting reg
    → Emits m (perform (wrmsr (register_msr reg) value) m) (setting reg value ∷ [])
msr-Emits reg value m x2 s =
    write-Emits _ m _ true x2 (msr_event reg value m.apic_base m.device.log s)

pub mmio-Emits :
    (reg value : ℕ) (m : Machine)
    → in_x2apic m ≡ false
    → IsSetting reg
    → Emits m (perform (mmio_write (register_address reg m) value) m) (setting reg value ∷ [])
mmio-Emits reg value m x s = write-Emits _ m _ false x (mmio_event reg value m m.device.log s)

pub apic_write-Emits :
    (reg value : ℕ) (m : Machine)
    → IsSetting reg
    → Emits m (apic_write reg value m) (setting reg value ∷ [])
unfolding apic_write
apic_write-Emits reg value m s = elim (Bool-cases (in_x2apic m)) [
  | inl x2 ↦ rw x2 (msr-Emits reg value m x2 s)
  | inr x ↦ rw x (mmio-Emits reg value m x s)
]

-- In either mode the end of an interrupt is a write of 0 to the register at 0xB0.
pub send_eoi-Emits : (m : Machine) → Emits m (send_eoi m) (setting 0xB0 0 ∷ [])
unfolding send_eoi
send_eoi-Emits m = elim (Bool-cases (in_x2apic m)) [
  | inl x2 ↦ rw x2 (msr-Emits 0xB0 0 m x2 (omega arith))
  | inr x ↦ rw x (mmio-Emits 0xB0 0 m x (omega arith))
]
