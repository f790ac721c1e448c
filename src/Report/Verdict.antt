-- ===== src/Report/Verdict.antt =====
-- The displays only print, and what the last lines say is decided by the results.
use native.Mathlib.Numerals.{add-one}
use zig_boot.Prelude.{
  ℕ, zero, suc, ◌+◌, ◌*◌, ◌/◌, ◌≡◌, ◌≤◌, ◌∙◌, refl, sym, ap, ap₂, subst, inl, inr, Bool, true, ◌&&◌,
  arith, ◌==◌, ltb, if◌then◌else◌, Bool-cases, for_range_inv, List, [], ◌∷◌,
}
use zig_boot.Console.{Console, text}
use zig_boot.Console.Text.{says}
use zig_boot.Machine.{Machine}
use zig_boot.Machine.Spoken.{with_console, Spoken, said, Spoken-trans, Spoken-if, for_range-Spoken}
use zig_boot.Parallel.{Results}
use zig_boot.Report.{
  rule, banner, barrier_line, show_counters, show_partial_sums, show_total, show_barrier_cpu,
  show_barrier, show_status, show_results, expected_sum, total_ticks, show_cpu_ticks,
  show_total_ticks, show_done,
}

-- Have all processors below `n` counted to a million?
unfoldable pub all_counted : ℕ → Results → Bool
all_counted zero r = true
all_counted (suc n) r = all_counted n r && r.per_cpu_counters n == 1000000

all_counted-add_one :
    (n : ℕ) (r : Results)
    → all_counted (n + 1) r ≡ all_counted n r && r.per_cpu_counters n == 1000000
unfolding all_counted
all_counted-add_one n r = rw add-one

pub show_counters-Spoken : (m : Machine) → Spoken m (show_counters m)
unfolding show_counters
show_counters-Spoken m =
    Spoken-trans said (
      for_range-Spoken _ _ _ (λ i t. Spoken-if (t.results.per_cpu_counters i == 1000000) said said))

pub show_partial_sums-Spoken : (m : Machine) → Spoken m (show_partial_sums m)
unfolding show_partial_sums
show_partial_sums-Spoken m = Spoken-trans said (for_range-Spoken _ _ _ (λ i t. said))

pub show_total-Spoken : (m : Machine) → Spoken m (show_total m)
unfolding show_total
show_total-Spoken m = Spoken-if (m.results.total_sum == expected_sum) said said

pub show_cpu_ticks-Spoken : (m : Machine) → Spoken m (show_cpu_ticks m)
unfolding show_cpu_ticks
show_cpu_ticks-Spoken m = Spoken-trans said (for_range-Spoken _ _ _ (λ i t. said))

pub show_total_ticks-Spoken : (m : Machine) → Spoken m (show_total_ticks m)
unfolding show_total_ticks
show_total_ticks-Spoken m =
    Spoken-if (ltb 0 (total_ticks m.kernel.cpu_count m.timer_ticks)) said said

pub show_done-Spoken : (m : Machine) → Spoken m (show_done m)
unfolding show_done
show_done-Spoken m = said

-- The loop of test 3 only prints, and its flag says whether all have counted to a million.
show_barrier_cpu-Spoken :
    (i : ℕ) (m : Machine) (r : Machine × Bool)
    → Spoken m r.0
    → r.1 ≡ all_counted i m.results
    → Spoken m (show_barrier_cpu i r).0 × ((show_barrier_cpu i r).1 ≡ all_counted (i + 1) m.results)
unfolding show_barrier_cpu
show_barrier_cpu-Spoken i m (t, ok) h e =
    let same : t.results.per_cpu_counters i ≡ m.results.per_cpu_counters i =
      ap (λ (x : Machine). x.results.per_cpu_counters i) h.same in
    elim (Bool-cases (t.results.per_cpu_counters i == 1000000)) [
      | inl all ↦
          rw all (Spoken-trans h said, ground (arith, e, same, all_counted-add_one i m.results))
      | inr some ↦
          rw some (Spoken-trans h said, ground (arith, e, same, all_counted-add_one i m.results))
    ]

barrier_line-Spoken : (ok : Bool) (m : Machine) → Spoken m (barrier_line ok m)
unfolding barrier_line
barrier_line-Spoken ok m = Spoken-if ok said said

show_barrier-Spoken :
    (m : Machine)
    → Spoken m (show_barrier m).0 × ((show_barrier m).1 ≡ all_counted m.kernel.cpu_count m.results)
unfolding show_barrier all_counted
show_barrier-Spoken m =
    let titled =
      says
        (text "\nTEST 3: Barrier Synchronization\n"
          ∷ text "---------------------------------\n"
          ∷ text "  (All CPUs should reach 1M after barrier)\n"
          ∷ [])
        m.kernel.console in
    let (h, e) =
      for_range_inv (λ i r. Spoken m r.0 × (r.1 ≡ all_counted i m.results)) show_barrier_cpu
        m.kernel.cpu_count 0 m.kernel.cpu_count (with_console titled m, true) (omega arith)
        (λ i r lo hi (h, e). show_barrier_cpu-Spoken i m r h e) (said, refl) in
    (Spoken-trans h (barrier_line-Spoken _ _), e)

-- The line of the final status.
abbrev pub verdict : Bool → List ℕ
verdict passed =
    if passed
    then text "[SUCCESS] All parallel tests passed!\n"
    else text "[WARNING] Some tests failed\n"

show_status-says :
    (ok : Bool) (m : Machine)
    → show_status ok m
      ≡ with_console
          (says
            (text "\n" ∷ rule ∷ verdict (m.results.total_sum == expected_sum && ok) ∷ rule ∷ [])
            m.kernel.console)
          m
unfolding show_status
show_status-says ok m = elim (Bool-cases (m.results.total_sum == expected_sum && ok)) [
  | inl e ↦ rw e refl
  | inr e ↦ rw e refl
]

status-verdict :
    (m m4 m5 : Machine) (ok : Bool)
    → Spoken m m4
    → Spoken m m5
    → ok ≡ all_counted m4.kernel.cpu_count m4.results
    → let passed =
        m.results.total_sum == expected_sum && all_counted m.kernel.cpu_count m.results in
      Spoken m (show_status ok m5)
      × ((before : Console) × ((show_status ok m5).kernel.console
            ≡ says (text "\n" ∷ rule ∷ verdict passed ∷ rule ∷ []) before))
status-verdict m m4 m5 ok h h' e =
    let all : ok ≡ all_counted m.kernel.cpu_count m.results =
      e ∙ ap (λ (x : Machine). all_counted x.kernel.cpu_count x.results) h.same in
    let sum : m5.results.total_sum ≡ m.results.total_sum =
      ap (λ (x : Machine). x.results.total_sum) h'.same in
    let passed : (m5.results.total_sum == expected_sum && ok)
        ≡ (m.results.total_sum == expected_sum && all_counted m.kernel.cpu_count m.results) =
      ap₂ (λ s a. s == expected_sum && a) sum all in
    let out = show_status-says ok m5 in
    (
      subst (Spoken m) (sym out) (Spoken-trans h' said),
      (
        m5.kernel.console,
        ap (λ (x : Machine). x.kernel.console) out
            ∙ ap (λ b. says (text "\n" ∷ rule ∷ verdict b ∷ rule ∷ []) m5.kernel.console) passed,
      ),
    )

-- With at most sixteen processors, the places of the arrays, showing the results only prints, and it ends
-- with the line of success exactly when every processor's counter is 1,000,000 and the total is the
-- sum of the numbers to 10,000,000; else it warns.
pub show_results-verdict :
    (m : Machine)
    → m.kernel.cpu_count ≤ 16
    → let passed =
        m.results.total_sum == 10000000 * 10000001 / 2
        && all_counted m.kernel.cpu_count m.results in
      Spoken m (show_results m)
      × ((before : Console) × ((show_results m).kernel.console
            ≡ says (text "\n" ∷ rule ∷ verdict passed ∷ rule ∷ []) before))
unfolding show_results
show_results-verdict m few =
    let m1 = banner (text "  Test Results\n") m in
    let m2 = show_counters m1 in
    let m3 = show_partial_sums m2 in
    let m4 = show_total m3 in
    let (m5, ok) = show_barrier m4 in
    let (quiet, all) = show_barrier-Spoken m4 in
    let sums = Spoken-trans (show_partial_sums-Spoken m2) (show_total-Spoken m3) in
    let shown : Spoken m m4 = Spoken-trans (Spoken-trans said (show_counters-Spoken m1)) sums in
    status-verdict m m4 m5 ok shown (Spoken-trans shown quiet) all
