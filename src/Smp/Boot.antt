-- ===== src/Smp/Boot.antt =====
-- Every processor but the first is told INIT and twice SIPI, in the order of the list.
use mathlib.Core.List.{append-nil}
use zig_boot.Prelude.{
  ℕ, zero, suc, ◌+◌, ◌-◌, ◌*◌, ◌^◌, ◌≡◌, ◌<◌, ◌≤◌, ◌≢◌, refl, ap, ◌∙◌, subst, arith, ◌==◌, leb,
  Array, List, [], ◌∷◌, ◌++◌, for_range, for_range_inv, false,
}
use zig_boot.Device.{pauses, wbinvd}
use zig_boot.Machine.{Machine}
use zig_boot.Apic.{send_ipi}
use zig_boot.Apic.Events.{ApicEvent, ipi, Emits, Emits-trans, Emits-refl, perform-Emits}
use zig_boot.Apic.Quiet.{without_eois, without_eois-append}
use zig_boot.Apic.Ipi.{apic_wait_icr-Emits, send_ipi-Emits}
use zig_boot.Smp.{
  trampoline, trampoline_size, ap_stack_size, poke, udelay, mdelay, init_assert, init_deassert,
  startup, send_and_wait, patch_stack, wake, boot_ap, boot_all_aps,
}

-- What one processor is told, the newest first: STARTUP (0x600) with page 8, the one at 0x8000, twice, the
-- end of INIT (0x500, level-triggered) and INIT, asserted; and what all of `n` from number `lo` on are told.
abbrev pub start_sequence : ℕ → List ApicEvent
start_sequence id = ipi id 0x608 ∷ ipi id 0x608 ∷ ipi id 0x8500 ∷ ipi id 0xC500 ∷ []

unfoldable pub start_sequences : Array → ℕ → ℕ → List ApicEvent
start_sequences ids zero lo = []
start_sequences ids (suc n) lo = start_sequences ids n (lo + 1) ++ start_sequence (ids lo)

pub without_eois-start_sequences :
    (ids : Array) (n lo : ℕ) → without_eois (start_sequences ids n lo) ≡ start_sequences ids n lo
unfolding start_sequences without_eois
without_eois-start_sequences ids zero lo = refl
without_eois-start_sequences ids (suc n) lo =
    without_eois-append (start_sequences ids n (lo + 1)) (start_sequence (ids lo))
    ∙ ap (λ l. l ++ start_sequence (ids lo)) (without_eois-start_sequences ids n (lo + 1))

send_and_wait-Emits :
    (apic_id flags : ℕ) (m : Machine)
    → apic_id < 256
    → flags < 2 ^ 32
    → Emits m (send_and_wait apic_id flags m) (ipi apic_id flags ∷ [])
unfolding send_and_wait
send_and_wait-Emits apic_id flags m h l =
    Emits-trans (send_ipi-Emits apic_id flags m h l)
      (apic_wait_icr-Emits (send_ipi apic_id flags m))

udelay-Emits : (usec : ℕ) (m : Machine) → Emits m (udelay usec m) []
unfolding udelay
udelay-Emits usec m = perform-Emits (pauses (usec * 10)) m tt

mdelay-Emits : (msec : ℕ) (m : Machine) → Emits m (mdelay msec m) []
unfolding mdelay
mdelay-Emits msec m =
    for_range_inv (λ i t. Emits m t []) _ msec 0 msec m (omega arith)
      (λ i t lo hi e. Emits-trans e (udelay-Emits 1000 t)) (Emits-refl m)

patch_stack-Emits : (cpu_idx : ℕ) (m : Machine) → Emits m (patch_stack cpu_idx m) []
unfolding patch_stack
patch_stack-Emits cpu_idx m =
    let top = m.symbols.ap_stacks + cpu_idx * ap_stack_size + ap_stack_size in
    Emits-trans (poked (trampoline + trampoline_size m - 16) top) (perform-Emits wbinvd _ tt)
  where
    poked : (a v : ℕ) → Emits m (poke a v m) []
    poked a v = record {
      mode = refl;
      base = refl;
      symbols = refl;
      ids = refl;
      count = refl;
      told = refl;
    }

wake-Emits :
    (apic_id : ℕ) (m : Machine) → apic_id < 256 → Emits m (wake apic_id m) (start_sequence apic_id)
unfolding wake
wake-Emits apic_id m h =
    let a = send_and_wait apic_id init_assert m in
    let b = mdelay 10 a in
    let c = send_and_wait apic_id init_deassert b in
    let d = send_and_wait apic_id startup c in
    let e = udelay 200 d in
    let f = send_and_wait apic_id startup e in
    let asserted =
      Emits-trans (send_and_wait-Emits apic_id init_assert m h (omega arith)) (mdelay-Emits 10 a) in
    let deasserted =
      Emits-trans asserted (send_and_wait-Emits apic_id init_deassert b h (omega arith)) in
    let first =
      Emits-trans (Emits-trans deasserted (send_and_wait-Emits apic_id startup c h (omega arith)))
        (udelay-Emits 200 d) in
    Emits-trans (Emits-trans first (send_and_wait-Emits apic_id startup e h (omega arith)))
      (udelay-Emits 200 f)

boot_ap-Emits :
    (i : ℕ) (m : Machine)
    → i ≢ 0
    → i < m.kernel.cpu_count
    → m.kernel.cpu_apic_ids i < 256
    → Emits m (boot_ap i m) (start_sequence (m.kernel.cpu_apic_ids i))
unfolding boot_ap
boot_ap-Emits i m nz lt h =
    let is_ap : (i == 0) ≡ false = ground arith in
    let listed : leb m.kernel.cpu_count i ≡ false = ground arith in
    rw (is_ap, listed)
      (Emits-trans (patch_stack-Emits i m)
        (wake-Emits (m.kernel.cpu_apic_ids i) (patch_stack i m) h))

boot_range-Emits :
    (ids : Array) (count n lo : ℕ) (m : Machine)
    → m.kernel.cpu_apic_ids ≡ ids
    → m.kernel.cpu_count ≡ count
    → lo + n ≡ count
    → lo ≢ 0
    → ((i : ℕ) → i < count → ids i < 256)
    → Emits m (for_range n lo boot_ap m) (start_sequences ids n lo)
unfolding for_range start_sequences
boot_range-Emits ids count zero lo m i c e nz h = Emits-refl m
boot_range-Emits ids count (suc n) lo m i c e nz h =
    let id : m.kernel.cpu_apic_ids lo ≡ ids lo = ap (λ f. f lo) i in
    let small : ids lo < 256 = h lo (omega arith) in
    let one = boot_ap-Emits lo m nz (omega arith) (omega arith) in
    let rest =
      boot_range-Emits ids count n (lo + 1) (boot_ap lo m) (one.ids ∙ i) (one.count ∙ c)
        (omega arith) (omega arith) h in
    Emits-trans (subst (λ j. Emits m (boot_ap lo m) (start_sequence j)) id one) rest

-- When the listed APIC ids are bytes, `boot_all_aps` tells the APIC, in either mode, exactly the
-- start of every listed processor but the first, in the order of the list: INIT, its end, and
-- twice SIPI with the page of the trampoline.
pub boot_all_aps-Emits :
    (m : Machine)
    → 1 ≤ m.kernel.cpu_count
    → ((i : ℕ) → i < m.kernel.cpu_count → m.kernel.cpu_apic_ids i < 256)
    → Emits m (boot_all_aps m) (start_sequences m.kernel.cpu_apic_ids (m.kernel.cpu_count - 1) 1)
unfolding boot_all_aps
boot_all_aps-Emits m some_cpu h =
    let m1 = record m { cpus_online = 1 } in
    let started =
      boot_range-Emits m.kernel.cpu_apic_ids m.kernel.cpu_count (m.kernel.cpu_count - 1) 1 m1 refl
        refl (omega arith) (omega arith) h in
    let online : Emits m m1 [] = record {
      mode = refl;
      base = refl;
      symbols = refl;
      ids = refl;
      count = refl;
      told = refl;
    } in
    let m2 = for_range (m.kernel.cpu_count - 1) 1 boot_ap m1 in
    Emits-trans (subst (λ es. Emits m m2 es) (append-nil _) (Emits-trans online started))
      (perform-Emits (pauses 1000000) m2 tt)
