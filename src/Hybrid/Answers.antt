-- ===== src/Hybrid/Answers.antt =====
-- What `detect_cpu_features` of hybrid/boot/init.c is to print, by the answers of `cpuid`.
use zig_boot.Prelude.{ℕ, ◌/◌, ◌%◌, ◌^◌, leb, if◌then◌else◌, test_bit, List, [], ◌∷◌, ◌++◌}
use zig_boot.Console.{text}
use zig_boot.Device.{Access, Device, cpuid}

-- The features by their bits, as the messages of hybrid/boot/init.c name them: in edx and ecx of leaf 1, and
-- in edx of leaf 0x80000001.
abbrev pub edx_bits : List (ℕ × List ℕ)
edx_bits =
    (0, text "FPU - x87 Floating Point Unit")
    ∷ (4, text "TSC - Time Stamp Counter")
    ∷ (5, text "MSR - Model Specific Registers")
    ∷ (6, text "PAE - Physical Address Extension")
    ∷ (8, text "CX8 - CMPXCHG8B")
    ∷ (9, text "APIC - On-chip APIC")
    ∷ (13, text "PGE - Page Global Enable")
    ∷ (15, text "CMOV - Conditional Move")
    ∷ (23, text "MMX - MMX instructions")
    ∷ (24, text "FXSR - FXSAVE/FXRSTOR")
    ∷ (25, text "SSE - Streaming SIMD Extensions")
    ∷ (26, text "SSE2 - Streaming SIMD Extensions 2")
    ∷ []

abbrev pub ecx_bits : List (ℕ × List ℕ)
ecx_bits =
    (0, text "SSE3 - Streaming SIMD Extensions 3")
    ∷ (9, text "SSSE3 - Supplemental SSE3")
    ∷ (19, text "SSE4.1 - Streaming SIMD Extensions 4.1")
    ∷ (20, text "SSE4.2 - Streaming SIMD Extensions 4.2")
    ∷ (21, text "x2APIC - Extended xAPIC")
    ∷ (23, text "POPCNT - Population Count")
    ∷ (28, text "AVX - Advanced Vector Extensions")
    ∷ []

abbrev pub extended_bits : List (ℕ × List ℕ)
extended_bits =
    (11, text "SYSCALL/SYSRET")
    ∷ (20, text "NX - No-Execute bit")
    ∷ (26, text "1GB Pages")
    ∷ (27, text "RDTSCP")
    ∷ (29, text "Long Mode (64-bit)")
    ∷ []

-- The lines of the features whose bits are set, each with a check mark, which is three bytes of UTF-8.
unfoldable pub supported : ℕ → List (ℕ × List ℕ) → List (List ℕ)
supported flags [] = []
supported flags ((bit, name) ∷ rest) =
    let others = supported flags rest in
    if test_bit flags bit
    then (text "  [" ++ (0xE2 ∷ 0x9C ∷ 0x93 ∷ (text "] " ++ (name ++ text "\n")))) ∷ others
    else others

-- What the processor answers for a leaf: the four registers are read one after another, in the order eax,
-- ebx, ecx, edx, after the accesses `log`.
abbrev pub eax_of : (List Access → ℕ) → ℕ → List Access → ℕ
eax_of reply leaf log = reply (cpuid leaf 0 ∷ log) % 2 ^ 32

abbrev pub ebx_of : (List Access → ℕ) → ℕ → List Access → ℕ
ebx_of reply leaf log = reply (cpuid leaf 1 ∷ cpuid leaf 0 ∷ log) % 2 ^ 32

abbrev pub ecx_of : (List Access → ℕ) → ℕ → List Access → ℕ
ecx_of reply leaf log = reply (cpuid leaf 2 ∷ cpuid leaf 1 ∷ cpuid leaf 0 ∷ log) % 2 ^ 32

-- The log after the question.
abbrev pub all_four : ℕ → List Access → List Access
all_four leaf log = cpuid leaf 3 ∷ cpuid leaf 2 ∷ cpuid leaf 1 ∷ cpuid leaf 0 ∷ log

abbrev pub edx_of : (List Access → ℕ) → ℕ → List Access → ℕ
edx_of reply leaf log = reply (all_four leaf log) % 2 ^ 32

-- The log after the question for `leaf`, which is put if the answer to `first` is at least `least`.
abbrev pub asked_log : ℕ → ℕ → ℕ → (List Access → ℕ) → List Access → List Access
asked_log first least leaf reply log =
    if leb least (eax_of reply first log)
    then all_four leaf (all_four first log)
    else all_four first log

abbrev pub asked : ℕ → ℕ → ℕ → Device → Device
asked first least leaf d = record d { log = asked_log first least leaf d.reply d.log }

-- The vendor is the bytes of ebx, edx and ecx of leaf 0, the lowest first, up to a NUL.
abbrev pub vendor_bytes : ℕ → ℕ → ℕ → List ℕ
vendor_bytes b d c =
    b % 256
    ∷ b / 2 ^ 8 % 256
    ∷ b / 2 ^ 16 % 256
    ∷ b / 2 ^ 24 % 256
    ∷ d % 256
    ∷ d / 2 ^ 8 % 256
    ∷ d / 2 ^ 16 % 256
    ∷ d / 2 ^ 24 % 256
    ∷ c % 256
    ∷ c / 2 ^ 8 % 256
    ∷ c / 2 ^ 16 % 256
    ∷ c / 2 ^ 24 % 256
    ∷ 0
    ∷ []

abbrev pub vendor_line : Device → List ℕ
vendor_line d =
    vendor_bytes (ebx_of d.reply 0 d.log) (edx_of d.reply 0 d.log) (ecx_of d.reply 0 d.log)

abbrev pub basic_lines : Device → List (List ℕ)
basic_lines d =
    let log = all_four 0 d.log in
    if leb 1 (eax_of d.reply 0 d.log)
    then text "[CPU] Features detected:\n" ∷ supported (edx_of d.reply 1 log) edx_bits
      ++ supported (ecx_of d.reply 1 log) ecx_bits
    else []

abbrev pub extended_lines : Device → List (List ℕ)
extended_lines d =
    if leb 0x80000001 (eax_of d.reply 0x80000000 d.log)
    then supported (edx_of d.reply 0x80000001 (all_four 0x80000000 d.log)) extended_bits
    else []

-- All that is printed, in its order.
abbrev pub report : Device → List (List ℕ)
report d =
    text "\n[CPU] Detecting CPU features...\n"
      ∷ text "[CPU] Vendor: "
      ∷ vendor_line d
      ∷ text "\n"
      ∷ basic_lines d
    ++ (extended_lines (asked 0 1 1 d) ++ text "\n" ∷ [])
