-- ===== src/Hybrid/Features.antt =====
-- hybrid/boot/init.c, `detect_cpu_features`.
use zig_boot.Prelude.{ℕ, ◌/◌, ◌%◌, ◌^◌, leb, if◌then◌else◌, test_bit, u32, List, [], ◌∷◌, ◌++◌}
use zig_boot.Console.{text}
use zig_boot.Device as Device
use zig_boot.Device.{Device, cpuid}
use zig_boot.Machine.{Machine, puts}
use zig_boot.Boot.{puts_all}

-- What `cpuid` leaves in its four registers.
pub record Registers : Type 0 where
  pub eax : ℕ
  pub ebx : ℕ
  pub ecx : ℕ
  pub edx : ℕ

-- `cpuid(leaf, &eax, &ebx, &ecx, &edx)`, one access for each register.
unfoldable pub query : ℕ → Device → Device × Registers
query leaf d =
    let (d0, a) = Device.read (cpuid leaf 0) d in
    let (d1, b) = Device.read (cpuid leaf 1) d0 in
    let (d2, c) = Device.read (cpuid leaf 2) d1 in
    let (d3, d) = Device.read (cpuid leaf 3) d2 in
    (d3, record { eax = u32 a; ebx = u32 b; ecx = u32 c; edx = u32 d })

-- The four bytes of a uint32_t as they lie in memory.
abbrev pub bytes_of : ℕ → List ℕ
bytes_of x = x % 256 ∷ x / 2 ^ 8 % 256 ∷ x / 2 ^ 16 % 256 ∷ x / 2 ^ 24 % 256 ∷ []

-- `char vendor[13]`
abbrev pub vendor : Registers → List ℕ
vendor r = bytes_of r.ebx ++ bytes_of r.edx ++ bytes_of r.ecx ++ 0 ∷ []

-- "  [✓] ", a name and the end of the line; the check mark is three bytes of UTF-8.
abbrev pub feature : List ℕ → List ℕ
feature name = text "  [" ++ 0xE2 ∷ 0x9C ∷ 0x93 ∷ text "] " ++ name ++ text "\n"

-- `if (flags & (1 << bit)) puts(…);` for one bit after another.
unfoldable pub show_features : ℕ → List (ℕ × List ℕ) → Machine → Machine
show_features flags [] m = m
show_features flags ((bit, name) ∷ rest) m =
    show_features flags rest (if test_bit flags bit then puts (feature name) m else m)

abbrev pub edx_features : List (ℕ × List ℕ)
edx_features =
    (0, text "FPU - x87 Floating Point Unit")
    ∷ (4, text "TSC - Time Stamp Counter")
    ∷ (5, text "MSR - Model Specific Registers")
    ∷ (6, text "PAE - Physical Address Extension")
    ∷ (8, text "CX8 - CMPXCHG8B")
    ∷ (9, text "APIC - On-chip APIC")
    ∷ (13, text "PGE - Page Global Enable")
    ∷ (15, text "CMOV - Conditional Move")
    ∷ (23, text "MMX - MMX instructions")
    ∷ (24, text "FXSR - FXSAVE/FXRSTOR")
    ∷ (25, text "SSE - Streaming SIMD Extensions")
    ∷ (26, text "SSE2 - Streaming SIMD Extensions 2")
    ∷ []

abbrev pub ecx_features : List (ℕ × List ℕ)
ecx_features =
    (0, text "SSE3 - Streaming SIMD Extensions 3")
    ∷ (9, text "SSSE3 - Supplemental SSE3")
    ∷ (19, text "SSE4.1 - Streaming SIMD Extensions 4.1")
    ∷ (20, text "SSE4.2 - Streaming SIMD Extensions 4.2")
    ∷ (21, text "x2APIC - Extended xAPIC")
    ∷ (23, text "POPCNT - Population Count")
    ∷ (28, text "AVX - Advanced Vector Extensions")
    ∷ []

abbrev pub extended_features : List (ℕ × List ℕ)
extended_features =
    (11, text "SYSCALL/SYSRET")
    ∷ (20, text "NX - No-Execute bit")
    ∷ (26, text "1GB Pages")
    ∷ (27, text "RDTSCP")
    ∷ (29, text "Long Mode (64-bit)")
    ∷ []

abbrev pub on_device : (Device → Device × Registers) → Machine → Machine × Registers
on_device f m = (record m { device = (f m.device).0 }, (f m.device).1)

-- Leaf 1, with the flags in edx and ecx.
unfoldable pub detect_basic : Machine → Machine
detect_basic m0 =
    let (m, r) = on_device (query 1) m0 in
    show_features r.ecx ecx_features
      (show_features r.edx edx_features (puts (text "[CPU] Features detected:\n") m))

-- Leaf 0x80000001, with the flags in edx.
unfoldable pub detect_extended : Machine → Machine
detect_extended m0 =
    let (m, r) = on_device (query 0x80000001) m0 in show_features r.edx extended_features m

-- The leaves from 0x80000000 on, and the end of the function.
unfoldable pub detect_rest : Machine → Machine
detect_rest m0 =
    let (m, r) = on_device (query 0x80000000) m0 in
    puts (text "\n") (if leb 0x80000001 r.eax then detect_extended m else m)

unfoldable pub detect_cpu_features : Machine → Machine
detect_cpu_features m0 =
    let (m, r) = on_device (query 0) (puts (text "\n[CPU] Detecting CPU features...\n") m0) in
    let m1 = puts_all (text "[CPU] Vendor: " ∷ vendor r ∷ text "\n" ∷ []) m in
    detect_rest (if leb 1 r.eax then detect_basic m1 else m1)
