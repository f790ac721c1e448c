-- ===== src/Hybrid/Handover.antt =====
-- What hybrid/boot/init.c hands over to Zig.
use zig_boot.Prelude.{
  ℕ, ◌+◌, ◌-◌, ◌*◌, ◌≤◌, ◌<◌, ◌≡◌, refl, ◌∙◌, ap, sym, subst, inl, inr, arith, true, false, not,
  ◌||◌, ◌==◌, ltb, if◌then◌else◌, Bool-cases, u64, List, ◌++◌,
}
use zig_boot.Device.{read_cr3}
use zig_boot.Machine.{Machine, Symbols, read}
use zig_boot.Machine.Spoken.{Spoken, said}
use zig_boot.Apic.{in_x2apic, apic_init}
use zig_boot.Apic.Init.{apic_init-Keeps}
use zig_boot.Apic.Quiet.{Tells, Tells-trans}
use zig_boot.Apic.Events.{ApicEvent, Emits-trans, read-Emits}
use zig_boot.Smp.Boot.{start_sequences}
use zig_boot.Main.Sequence.{Spoken-Emits, timer_settings, start_timer-Tells, IsElsewhere, silent}
use zig_boot.Hybrid.BootInfo.{BootInfo, CpuInfo, cpu_info, start_info, show_info}
use zig_boot.Hybrid.Fill.{IsFilled, fill_cpus-IsFilled, fill_cpus-none}
use zig_boot.Hybrid.Start.{
  HandOff, handed_over, overrun, show_summary, farewell, call_zig, hand_over, start_and_hand_over,
}

show_summary-Spoken : (m : Machine) → Spoken m (show_summary m)
unfolding show_summary
show_summary-Spoken m = said

farewell-Spoken : (info : BootInfo) (m : Machine) → Spoken m (farewell info m)
unfolding show_info
farewell-Spoken info m = said

-- The structure `info` describes the processors that `m` lists, with the tables at `rsdp` and `madt`;
-- `t` is the machine when it is handed over.
pub record IsHandedOver (rsdp madt : ℕ) (m t : Machine) (info : BootInfo) : Type 0 where
  pub told :
      Tells
        (apic_init m)
        t
        (timer_settings ++ start_sequences m.kernel.cpu_apic_ids (m.kernel.cpu_count - 1) 1)
  pub tables : (info.rsdp_address ≡ rsdp) × (info.madt_address ≡ madt)
  pub count : info.cpu_count ≡ m.kernel.cpu_count
  pub bsp : info.bsp_apic_id ≡ m.kernel.cpu_apic_ids 0
  pub mode : info.use_x2apic ≡ in_x2apic (apic_init m)
  pub base : info.apic_base ≡ (apic_init m).apic_base
  -- The stack of the entry `i` ends where the place `i` of `ap_stacks` ends.
  pub listed :
      (i : ℕ)
      → i < m.kernel.cpu_count
      → ((info.cpus i).apic_id ≡ m.kernel.cpu_apic_ids i)
        × ((info.cpus i).stack_top ≡ u64 (m.symbols.ap_stacks + (i + 1) * 8192))
        × ((info.cpus i).online ≡ i == 0 || ltb i t.cpus_online)
  pub unlisted : (i : ℕ) → m.kernel.cpu_count ≤ i → (info.cpus i).online ≡ false

-- An entry that is not filled.
abbrev none_yet : CpuInfo
none_yet = record { apic_id = 0; stack_top = 0; online = false }

-- What the APIC is told from `apic_init` to the hand-over.
abbrev started : Machine → List ApicEvent
started m = timer_settings ++ start_sequences m.kernel.cpu_apic_ids (m.kernel.cpu_count - 1) 1

filled-IsHandedOver :
    (rsdp madt cr3_value : ℕ) (m u t : Machine) (info : BootInfo)
    → m.kernel.cpu_count ≤ 16
    → Tells (apic_init m) u (started m)
    → Tells (apic_init m) t (started m)
    → t.cpus_online ≡ u.cpus_online
    → IsFilled u.kernel.cpu_count u (start_info rsdp madt cr3_value u) info
    → IsHandedOver rsdp madt m t info
unfolding start_info
filled-IsHandedOver rsdp madt cr3_value m u t info few before told online f =
    let e = before.emits in
    let k = apic_init-Keeps m in
    let count : u.kernel.cpu_count ≡ m.kernel.cpu_count = e.count ∙ k.count in
    let ids : (i : ℕ) → u.kernel.cpu_apic_ids i ≡ m.kernel.cpu_apic_ids i =
      λ i. ap (λ a. a i) (e.ids ∙ k.ids) in
    let stacks : u.symbols.ap_stacks ≡ m.symbols.ap_stacks =
      ap (λ (s : Symbols). s.ap_stacks) (e.symbols ∙ k.symbols) in
    record {
      told = told;
      tables = (
        ap (λ (x : BootInfo). x.rsdp_address) f.rest,
        ap (λ (x : BootInfo). x.madt_address) f.rest,
      );
      count = ap (λ (x : BootInfo). x.cpu_count) f.rest ∙ omega (arith, count);
      bsp = ap (λ (x : BootInfo). x.bsp_apic_id) f.rest ∙ ids 0;
      mode = ap (λ (x : BootInfo). x.use_x2apic) f.rest ∙ ap (λ n. not (n == 0)) e.mode;
      base = ap (λ (x : BootInfo). x.apic_base) f.rest ∙ e.base;
      listed = λ i lt.
          let inside : ltb i u.kernel.cpu_count ≡ true = ground (arith, count) in
          let entry : info.cpus i ≡ cpu_info u i = f.entries i ∙ rw inside refl in
          (
            ap (λ (x : CpuInfo). x.apic_id) entry ∙ ids i,
            ap (λ (x : CpuInfo). x.stack_top) entry ∙ ap u64 (omega (arith, stacks)),
            ap (λ (x : CpuInfo). x.online) entry ∙ ap (λ n. i == 0 || ltb i n) (sym online),
          );
      unlisted = λ i le.
          let outside : ltb i u.kernel.cpu_count ≡ false = ground (arith, count) in
          let entry : (info.cpus i).online
              ≡ (if ltb i u.kernel.cpu_count then cpu_info u i else none_yet).online =
            ap (λ (x : CpuInfo). x.online) (f.entries i) in
          entry ∙ rw outside refl;
    }

-- How the code ends when it has processors.
pub data Handed (rsdp madt : ℕ) (m : Machine) : HandOff → Type 0 where
  fits :
      (info : BootInfo) (t : Machine)
      → m.kernel.cpu_count ≤ 16
      → IsHandedOver rsdp madt m t info
      → Handed rsdp madt m (handed_over info t)
  too_many : (t : Machine) → 16 < m.kernel.cpu_count → Handed rsdp madt m (overrun t)

hand_over-Handed :
    (rsdp madt : ℕ) (m t : Machine)
    → Tells (apic_init m) t (started m)
    → Handed rsdp madt m (hand_over rsdp madt t)
unfolding hand_over
hand_over-Handed rsdp madt m t e =
    let (u, cr3_value) = read read_cr3 (show_summary t) in
    let asked = Tells-trans e (
      silent (
        Emits-trans (Spoken-Emits (show_summary-Spoken t))
          (read-Emits read_cr3 (show_summary t) tt))) in
    let count : u.kernel.cpu_count ≡ m.kernel.cpu_count =
      asked.emits.count ∙ (apic_init-Keeps m).count in
    let start = start_info rsdp madt cr3_value u in
    elim (Bool-cases (ltb 16 m.kernel.cpu_count)) [
      | inl many ↦
          subst (λ o. Handed rsdp madt m (call_zig o u))
            (sym (fill_cpus-none u start (ground (arith, count)))) (too_many u (ground arith))
      | inr few ↦
          let (info, same, filled) = fill_cpus-IsFilled u start (ground (arith, count)) in
          let spoken = farewell-Spoken info u in
          let last = farewell info u in
          subst (λ o. Handed rsdp madt m (call_zig o u)) (sym same)
            (fits info last (ground arith) (
              filled-IsHandedOver rsdp madt cr3_value m u last info (ground arith) asked
                (Tells-trans asked (silent (Spoken-Emits spoken)))
                (ap (λ (x : Machine). x.cpus_online) spoken.same) filled))
    ]

-- With at least one and at most sixteen processors, whose identifiers are bytes, they are started and
-- described to Zig; with more the code stores past the end of the array.
pub start_and_hand_over-Handed :
    (others : ℕ → Machine → Machine) (rsdp madt : ℕ) (m : Machine)
    → IsElsewhere others
    → 1 ≤ m.kernel.cpu_count
    → ((i : ℕ) → i < m.kernel.cpu_count → m.kernel.cpu_apic_ids i < 256)
    → Handed rsdp madt m (start_and_hand_over others rsdp madt m)
unfolding start_and_hand_over
start_and_hand_over-Handed others rsdp madt m h some_cpu small =
    hand_over-Handed rsdp madt m _ (start_timer-Tells others m h some_cpu small)
