-- ===== src/Hybrid/Fill.antt =====
-- The loop of hybrid/boot/init.c that fills `boot_info.cpus`.
use zig_boot.Prelude.{
  ℕ, ◌+◌, ◌≤◌, ◌<◌, ◌≡◌, refl, ap, inl, inr, arith, true, ◌==◌, ltb, if◌then◌else◌, Bool-cases,
  Option, none, some, for_range_inv,
}
use zig_boot.Machine.{Machine}
use zig_boot.Hybrid.BootInfo.{BootInfo, cpu_info, fill_cpu, fill_cpus}

-- The structure with the entries of the processors below `n`.
pub record IsFilled (n : ℕ) (m : Machine) (info t : BootInfo) : Type 0 where
  pub rest : t ≡ record info { cpus = t.cpus }
  pub entries : (j : ℕ) → t.cpus j ≡ (if ltb j n then cpu_info m j else info.cpus j)

fill_cpu-IsFilled :
    (m : Machine) (info : BootInfo) (i : ℕ) (o : Option BootInfo)
    → i < 16
    → (t : BootInfo) × (o ≡ some t) × IsFilled i m info t
    → (t : BootInfo) × (fill_cpu m i o ≡ some t) × IsFilled (i + 1) m info t
unfolding fill_cpu
fill_cpu-IsFilled m info i o lt (t, e, f) =
    let room : ltb i 16 ≡ true = ground arith in
    let u = record t { cpus = λ j. if j == i then cpu_info m i else t.cpus j } in
    (
      u,
      rw (e, room) refl,
      record {
        rest = ap (λ (x : BootInfo). record x { cpus = u.cpus }) f.rest;
        entries = λ j. elim (Bool-cases (j == i)) [
          | inl here ↦ let same : j ≡ i = ground arith in rw same (ground arith)
          | inr there ↦ ground (arith, f.entries j)
        ];
      },
    )

-- Up to sixteen processors have their entries filled, and nothing else changes.
pub fill_cpus-IsFilled :
    (m : Machine) (info : BootInfo)
    → m.kernel.cpu_count ≤ 16
    → (t : BootInfo) × (fill_cpus m info ≡ some t) × IsFilled m.kernel.cpu_count m info t
unfolding fill_cpus
fill_cpus-IsFilled m info few =
    for_range_inv (λ i o. (t : BootInfo) × (o ≡ some t) × IsFilled i m info t) (fill_cpu m)
      m.kernel.cpu_count 0 m.kernel.cpu_count (some info) (omega arith)
      (λ i o lo hi h. fill_cpu-IsFilled m info i o (omega arith) h)
      (info, refl, record { rest = refl; entries = λ j. ground arith })

fill_cpu-none :
    (m : Machine) (i : ℕ) (o : Option BootInfo)
    → (16 < i → o ≡ none)
    → 16 < i + 1
    → fill_cpu m i o ≡ none
unfolding fill_cpu
fill_cpu-none m i none h lt = refl
fill_cpu-none m i (some info) h lt = ground arith

-- A seventeenth processor has no place.
pub fill_cpus-none :
    (m : Machine) (info : BootInfo) → 16 < m.kernel.cpu_count → fill_cpus m info ≡ none
unfolding fill_cpus
fill_cpus-none m info many =
    for_range_inv (λ i o. 16 < i → o ≡ none) (fill_cpu m) m.kernel.cpu_count 0 m.kernel.cpu_count
      (some info) (omega arith) (λ i o lo hi h. fill_cpu-none m i o h) (λ lt. absurd (omega arith))
      many
