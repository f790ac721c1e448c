-- ===== src/Hybrid/Report.antt =====
-- What `detect_cpu_features` of hybrid/boot/init.c prints, read off the answers of `cpuid`.
use zig_boot.Prelude.{
  ℕ, ◌≡◌, ◌∙◌, refl, ap, sym, subst, inl, inr, leb, if◌then◌else◌, Bool-cases, test_bit, List, [],
  ◌∷◌, ◌++◌,
}
use zig_boot.Console.{Console, text}
use zig_boot.Device as Device
use zig_boot.Device.{Device, cpuid}
use zig_boot.Machine.{Machine, puts}
use zig_boot.Machine.Spoken.{with_console, said}
use zig_boot.Console.Text.{says}
use zig_boot.Apic.Events.{Emits, Emits-trans, read-Emits}
use zig_boot.Main.Sequence.{Spoken-Emits}
use zig_boot.Hybrid.Answers.{
  edx_bits, ecx_bits, extended_bits, supported, eax_of, asked, vendor_line, basic_lines,
  extended_lines, report,
}
use zig_boot.Hybrid.Features.{
  query, show_features, edx_features, ecx_features, detect_basic, detect_extended, detect_rest,
  detect_cpu_features,
}

abbrev pub say : List (List ℕ) → Machine → Machine
say strings m = with_console (says strings m.kernel.console) m

says-append : (xs ys : List (List ℕ)) (c : Console) → says (xs ++ ys) c ≡ says ys (says xs c)
says-append [] ys c = refl
says-append (x ∷ xs) ys c = says-append xs ys _

show_features-say :
    (flags : ℕ) (fs : List (ℕ × List ℕ)) (m : Machine)
    → show_features flags fs m ≡ say (supported flags fs) m
unfolding show_features supported text
show_features-say flags [] m = refl
show_features-say flags ((bit, name) ∷ rest) m = elim (Bool-cases (test_bit flags bit)) [
  | inl e ↦ rw e (show_features-say flags rest _)
  | inr e ↦ rw e (show_features-say flags rest m)
]

abbrev pub with_device : Device → Machine → Machine
with_device d m = record m { device = d }

detect_basic-say :
    (m : Machine)
    → detect_basic m ≡ (
        let (d, r) = query 1 m.device in
        say
          (text "[CPU] Features detected:\n" ∷ supported r.edx edx_bits ++ supported r.ecx ecx_bits)
          (with_device d m))
unfolding detect_basic
detect_basic-say m =
    let (d, r) = query 1 m.device in
    let start = say (text "[CPU] Features detected:\n" ∷ []) (with_device d m) in
    show_features-say r.ecx ecx_features (show_features r.edx edx_features start)
    ∙ ap (say (supported r.ecx ecx_bits)) (show_features-say r.edx edx_features start)
    ∙ ap (λ c. with_console c (with_device d m))
        (sym (says-append (supported r.edx edx_bits) (supported r.ecx ecx_bits) _))

detect_extended-say :
    (m : Machine)
    → detect_extended m ≡ (
        let (d, r) = query 0x80000001 m.device in
        say (supported r.edx extended_bits) (with_device d m))
unfolding detect_extended
detect_extended-say m = let (d, r) = query 0x80000001 m.device in show_features-say r.edx _ _

query-Emits : (leaf : ℕ) (m : Machine) → Emits m (with_device (query leaf m.device).0 m) []
unfolding query
query-Emits leaf m =
    let m0 = with_device (Device.read (cpuid leaf 0) m.device).0 m in
    let m1 = with_device (Device.read (cpuid leaf 1) m0.device).0 m in
    let m2 = with_device (Device.read (cpuid leaf 2) m1.device).0 m in
    let first = Emits-trans (read-Emits (cpuid leaf 0) m tt) (read-Emits (cpuid leaf 1) m0 tt) in
    Emits-trans first
      (Emits-trans (read-Emits (cpuid leaf 2) m1 tt) (read-Emits (cpuid leaf 3) m2 tt))

asked-Emits :
    (first least leaf : ℕ) (m : Machine)
    → Emits m (with_device (asked first least leaf m.device) m) []
unfolding query Device.read
asked-Emits first least leaf m =
    let (d1, r) = query first m.device in
    elim (Bool-cases (leb least (eax_of m.device.reply first m.device.log))) [
      | inl e ↦ rw e (Emits-trans (query-Emits first m) (query-Emits leaf (with_device d1 m)))
      | inr e ↦ rw e (query-Emits first m)
    ]

-- The part for leaf 1, where the processor has it.
basic_part :
    (m : Machine)
    → let (d1, r) = query 0 m.device in
      let t = with_device d1 m in
      (if leb 1 r.eax then detect_basic t else t)
      ≡ say (basic_lines m.device) (with_device (asked 0 1 1 m.device) m)
unfolding query Device.read
basic_part m =
    let (d1, r) = query 0 m.device in
    elim (Bool-cases (leb 1 (eax_of m.device.reply 0 m.device.log))) [
      | inl e ↦ rw e (detect_basic-say (with_device d1 m))
      | inr e ↦ rw e refl
    ]

extended_part :
    (m : Machine)
    → let (d1, r) = query 0x80000000 m.device in
      let t = with_device d1 m in
      (if leb 0x80000001 r.eax then detect_extended t else t)
      ≡ say
          (extended_lines m.device)
          (with_device (asked 0x80000000 0x80000001 0x80000001 m.device) m)
unfolding query Device.read
extended_part m =
    let (d1, r) = query 0x80000000 m.device in
    elim (Bool-cases (leb 0x80000001 (eax_of m.device.reply 0x80000000 m.device.log))) [
      | inl e ↦ rw e (detect_extended-say (with_device d1 m))
      | inr e ↦ rw e refl
    ]

-- The device after all questions.
abbrev pub all_asked : Device → Device
all_asked d = asked 0x80000000 0x80000001 0x80000001 (asked 0 1 1 d)

-- What follows the questions on leaf 1.
rest_part :
    (m : Machine)
    → detect_rest m
      ≡ say
          (extended_lines m.device ++ text "\n" ∷ [])
          (with_device (asked 0x80000000 0x80000001 0x80000001 m.device) m)
unfolding detect_rest query Device.read
rest_part m =
    ap (puts (text "\n")) (extended_part m)
    ∙ ap (λ c. with_console c (with_device (asked 0x80000000 0x80000001 0x80000001 m.device) m))
        (sym (says-append (extended_lines m.device) (text "\n" ∷ []) m.kernel.console))

-- `detect_cpu_features` prints the vendor, and a line for each feature whose bit is set in a leaf that
-- the processor has, as `Hybrid.Answers` lists them; but for the console and what `cpuid` was asked nothing
-- changes, and the APIC is told nothing.
pub detect_cpu_features-report :
    (m : Machine)
    → (detect_cpu_features m ≡ say (report m.device) (with_device (all_asked m.device) m))
      × Emits m (detect_cpu_features m) []
unfolding detect_cpu_features query Device.read
detect_cpu_features-report m = (printed, told)
  where
    opening : List (List ℕ)
    opening =
        text "\n[CPU] Detecting CPU features...\n"
        ∷ text "[CPU] Vendor: "
        ∷ vendor_line m.device
        ∷ text "\n"
        ∷ []

    start : Machine
    start = say opening m

    middle : Machine
    middle = say (basic_lines m.device) (with_device (asked 0 1 1 m.device) start)

    end : Machine
    end = with_device (all_asked m.device) m

    rejoined :
        says (extended_lines middle.device ++ text "\n" ∷ []) middle.kernel.console
        ≡ says (report m.device) m.kernel.console
    rejoined = sym (
        says-append (basic_lines m.device) (extended_lines middle.device ++ text "\n" ∷ [])
          start.kernel.console)

    printed : detect_cpu_features m ≡ say (report m.device) end
    printed =
        let (d1, r) = query 0 m.device in
        let t = with_device d1 start in
        let first : detect_cpu_features m
            ≡ detect_rest (if leb 1 r.eax then detect_basic t else t) =
          refl in
        first
        ∙ ap detect_rest (basic_part start)
        ∙ rest_part middle
        ∙ ap (λ c. with_console c end) rejoined

    told : Emits m (detect_cpu_features m) []
    told =
        subst (λ t. Emits m t []) (sym printed)
          (Emits-trans
            (Emits-trans (asked-Emits 0 1 1 m)
              (asked-Emits 0x80000000 0x80000001 0x80000001 (with_device (asked 0 1 1 m.device) m)))
            (Spoken-Emits said))
