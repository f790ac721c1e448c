-- ===== src/Main/Sequence.antt =====
-- What the APIC is told from the start of the processors to the end.
use mathlib.Core.List.{append-nil}
use zig_boot.Prelude.{
  ℕ, ◌-◌, ◌≤◌, ◌<◌, ◌≡◌, ◌∙◌, refl, sym, ap, ap₂, subst, inl, inr, arith, ◌==◌, Bool-cases, u32,
  store, List, [], ◌∷◌, ◌++◌,
}
use zig_boot.Console.{text}
use zig_boot.Device as Device
use zig_boot.Device.{rdmsr, sti, pauses}
use zig_boot.Machine.{Machine, puts, perform}
use zig_boot.Machine.Spoken.{with_console, Spoken, said, Spoken-if}
use zig_boot.Apic.{in_x2apic, apic_init, apic_timer_init}
use zig_boot.Apic.Init.{apic_init-Keeps}
use zig_boot.Apic.Events.{
  ApicEvent, setting, events, Emits, Emits-trans, perform-Emits, read-Emits, apic_read-Emits,
}
use zig_boot.Apic.Quiet.{without_eois, Tells, Emits-Tells, Tells-trans}
use zig_boot.Apic.Timer.{apic_timer_init-Emits}
use zig_boot.Smp.{setup_trampoline, boot_all_aps}
use zig_boot.Smp.Boot.{start_sequences, without_eois-start_sequences, boot_all_aps-Emits}
use zig_boot.Parallel.{Results, count_up, test_parallel_counters, test_distributed_sum}
use zig_boot.Boot.{puts_all}
use zig_boot.Report.{banner, show_results, show_cpu_ticks, show_total_ticks}
use zig_boot.Report.Verdict.{
  show_results-verdict, show_cpu_ticks-Spoken, show_total_ticks-Spoken, show_done-Spoken,
}
use zig_boot.Main.{
  on_results, show_timer_init, start_cpus, show_online, show_register, read_lvt, start_timer,
  run_tests, run_cpus,
}

pub Spoken-Emits : {m t : Machine} → Spoken m t → Emits m t []
Spoken-Emits {m} {t} s =
    let printed : Emits m (with_console t.kernel.console m) [] = record {
      mode = refl;
      base = refl;
      symbols = refl;
      ids = refl;
      count = refl;
      told = refl;
    } in
    subst (λ u. Emits m u []) (sym s.same) printed

results-Emits : (m : Machine) (r : Results) → Emits m (record m { results = r }) []
results-Emits m r = record {
  mode = refl;
  base = refl;
  symbols = refl;
  ids = refl;
  count = refl;
  told = refl;
}

setup_trampoline-Emits : (m : Machine) → Emits m (setup_trampoline m) []
unfolding setup_trampoline Device.read Device.perform events
setup_trampoline-Emits m = record {
  mode = refl;
  base = refl;
  symbols = refl;
  ids = refl;
  count = refl;
  told = refl;
}

pub show_online-Spoken : (m : Machine) → Spoken m (show_online m)
unfolding show_online
show_online-Spoken m = Spoken-if (m.cpus_online == u32 m.kernel.cpu_count) said said

read_lvt-Emits : (m : Machine) → Emits m (read_lvt m).0 []
unfolding read_lvt
read_lvt-Emits m = elim (Bool-cases (in_x2apic m)) [
  | inl x2 ↦ rw x2 (read-Emits (rdmsr 0x832) m tt)
  | inr x ↦ rw x (apic_read-Emits 0x320 m)
]

-- The three writes of `apic_timer_init`, the last first.
abbrev pub timer_settings : List ApicEvent
timer_settings = setting 0x380 10000000 ∷ setting 0x320 0x20020 ∷ setting 0x3E0 3 ∷ []

pub start_timer-Emits : (m : Machine) → Emits m (start_timer m) timer_settings
unfolding start_timer show_timer_init show_register
start_timer-Emits m =
    let m1 = puts (text "\n[TIMER] Enabling interrupts and starting APIC Timer...\n") m in
    let m2 = apic_timer_init (perform sti m1) in
    let m3 = show_timer_init m2 in
    let on =
      Emits-trans (Emits-trans (Spoken-Emits {t = m1} said) (perform-Emits sti m1 tt))
        (apic_timer_init-Emits (perform sti m1)) in
    let seen_lvt = Emits-trans (Spoken-Emits {t = m3} said) (read_lvt-Emits m3) in
    Emits-trans on (Emits-trans seen_lvt (Spoken-Emits said))

-- The other processors, which have APICs of their own, and the interrupts that are handled in the meantime
-- tell this APIC nothing but the ends of interrupts.
abbrev pub IsElsewhere : (ℕ → Machine → Machine) → Type 0
IsElsewhere others = (n : ℕ) (t : Machine) → Tells t (others n t) []

pub silent : {m t : Machine} → Emits m t [] → Tells m t []
unfolding without_eois
silent e = Emits-Tells refl e

run_tests-Tells :
    (others : ℕ → Machine → Machine) (m : Machine)
    → IsElsewhere others
    → Tells m (run_tests others m) []
unfolding run_tests
run_tests-Tells others m0 h =
    let m =
      puts_all (text "[TEST] Waiting for APs to initialize...\n" ∷ [])
        (banner (text "  Running Parallel Computation Tests\n") m0) in
    let p = perform (pauses 500000) m in
    let m1 = puts (text "[TEST] BSP running tests...\n") p in
    let t1 = on_results (test_parallel_counters 0) m1 in
    let m2 = others 1 t1 in
    let t2 = on_results (test_distributed_sum m2.kernel.cpu_count 0) m2 in
    let m3 = others 2 t2 in
    let m4 = on_results (λ r. record r { per_cpu_counters = store r.per_cpu_counters 0 0 }) m3 in
    let m5 = others 3 m4 in
    let t5 = on_results (count_up 500000 0) m5 in
    let m6 = others 4 t5 in
    let t6 = on_results (count_up 500000 0) m6 in
    let started =
      Emits-trans (Spoken-Emits {t = m} said)
        (Emits-trans (perform-Emits (pauses 500000) m tt) (Spoken-Emits {t = m1} said)) in
    let first = Tells-trans (silent (Emits-trans started (results-Emits m1 t1.results))) (h 1 t1) in
    let second = Tells-trans (Tells-trans first (silent (results-Emits m2 t2.results))) (h 2 t2) in
    let third = Tells-trans (Tells-trans second (silent (results-Emits m3 m4.results))) (h 3 m4) in
    let fourth = Tells-trans (Tells-trans third (silent (results-Emits m5 t5.results))) (h 4 t5) in
    Tells-trans fourth (silent (Emits-trans (results-Emits m6 t6.results) (Spoken-Emits said)))

pub start_cpus-Emits :
    (m : Machine)
    → 1 ≤ m.kernel.cpu_count
    → ((i : ℕ) → i < m.kernel.cpu_count → m.kernel.cpu_apic_ids i < 256)
    → Emits
        (apic_init m)
        (start_cpus m)
        (start_sequences m.kernel.cpu_apic_ids (m.kernel.cpu_count - 1) 1)
unfolding start_cpus setup_trampoline
start_cpus-Emits m some_cpu h =
    let a = apic_init m in
    let k = apic_init-Keeps m in
    let t = setup_trampoline a in
    let u = puts (text "\n[SMP] Starting AP boot sequence...\n") t in
    let ready = Emits-trans (setup_trampoline-Emits a) (Spoken-Emits {t = u} said) in
    let small : (i : ℕ) → i < a.kernel.cpu_count → a.kernel.cpu_apic_ids i < 256 = λ i lt.
      let same : a.kernel.cpu_apic_ids i ≡ m.kernel.cpu_apic_ids i = ap (λ f. f i) k.ids in
      omega (arith, same, h i (omega (arith, k.count))) in
    let sequences : start_sequences a.kernel.cpu_apic_ids (a.kernel.cpu_count - 1) 1 ++ []
        ≡ start_sequences m.kernel.cpu_apic_ids (m.kernel.cpu_count - 1) 1 =
      append-nil _ ∙ ap₂ (λ ids n. start_sequences ids (n - 1) 1) k.ids k.count in
    subst (λ es. Emits a (boot_all_aps u) es) sequences
      (Emits-trans ready (boot_all_aps-Emits u (omega (arith, k.count)) small))

-- Up to the settings of the timer: the hybrid kernel goes the same way.
pub start_timer-Tells :
    (others : ℕ → Machine → Machine) (m : Machine)
    → IsElsewhere others
    → 1 ≤ m.kernel.cpu_count
    → ((i : ℕ) → i < m.kernel.cpu_count → m.kernel.cpu_apic_ids i < 256)
    → Tells
        (apic_init m)
        (start_timer (show_online (others 0 (start_cpus m))))
        (timer_settings ++ start_sequences m.kernel.cpu_apic_ids (m.kernel.cpu_count - 1) 1)
unfolding without_eois
start_timer-Tells others m h some_cpu small =
    let m1 = start_cpus m in
    let m2 = others 0 m1 in
    let starts =
      Emits-Tells (without_eois-start_sequences m.kernel.cpu_apic_ids (m.kernel.cpu_count - 1) 1)
        (start_cpus-Emits m some_cpu small) in
    Tells-trans
      (Tells-trans starts (Tells-trans (h 0 m1) (silent (Spoken-Emits (show_online-Spoken m2)))))
      (Emits-Tells refl (start_timer-Emits (show_online m2)))

-- From the end of `apic_init` to the end of `kernel_main`, in either mode, when there are at least one and
-- at most sixteen processors, the listed identifiers are bytes, and the other processors and the
-- interrupts tell this APIC nothing but the ends of interrupts: the APIC is told INIT, its end and twice
-- STARTUP with page 8 for every listed processor but the first, in the order of the list, then the three
-- settings of the timer, and nothing else but ends of interrupts.
pub run_cpus-Tells :
    (others : ℕ → Machine → Machine) (m : Machine)
    → IsElsewhere others
    → 1 ≤ m.kernel.cpu_count
    → m.kernel.cpu_count ≤ 16
    → ((i : ℕ) → i < m.kernel.cpu_count → m.kernel.cpu_apic_ids i < 256)
    → Tells
        (apic_init m)
        (run_cpus others m)
        (timer_settings ++ start_sequences m.kernel.cpu_apic_ids (m.kernel.cpu_count - 1) 1)
unfolding run_cpus
run_cpus-Tells others m h some_cpu few small =
    let m4 = start_timer (show_online (others 0 (start_cpus m))) in
    let m5 = run_tests others m4 in
    let m6 = show_results m5 in
    let m7 = banner (text "  APIC Timer Test\n") m6 in
    let m8 = puts (text "[TIMER] Waiting 2 seconds to collect timer ticks...\n") m7 in
    let m9 = perform (pauses 20000000) m8 in
    let m10 = others 5 m9 in
    let m11 = show_cpu_ticks m10 in
    let m12 = show_total_ticks m11 in
    let tested =
      Tells-trans (start_timer-Tells others m h some_cpu small) (run_tests-Tells others m4 h) in
    let count : m5.kernel.cpu_count ≡ m.kernel.cpu_count =
      tested.emits.count ∙ (apic_init-Keeps m).count in
    let (quiet, last_lines) = show_results-verdict m5 (omega (arith, count, few)) in
    let waiting =
      Emits-trans (Emits-trans (Spoken-Emits quiet) (Spoken-Emits {t = m8} said))
        (perform-Emits (pauses 20000000) m8 tt) in
    let waited = Tells-trans (silent waiting) (h 5 m9) in
    let shown = Emits-trans (Spoken-Emits (show_cpu_ticks-Spoken m10)) (
      Emits-trans (Spoken-Emits (show_total_ticks-Spoken m11))
        (Spoken-Emits (show_done-Spoken m12))) in
    Tells-trans tested (Tells-trans waited (silent shown))
