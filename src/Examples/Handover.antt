-- ===== src/Examples/Handover.antt =====
-- The theorems on hybrid/boot/init.c and hybrid/boot/services.c at concrete states.
use zig_boot.Prelude.{◌≡◌, ◌⊎◌, ◌↔◌, true, arith, IsBytes, [], ◌∷◌, ◌++◌}
use zig_boot.Serial.{transmitted}
use zig_boot.Machine.{Machine}
use zig_boot.Apic.{in_x2apic, send_eoi}
use zig_boot.Apic.Events.{Emits}
use zig_boot.Acpi.Examples.{bios}
use zig_boot.Hybrid.Services.{c_write_serial_hex, c_send_eoi}
use zig_boot.Hybrid.Wire.{with_tails, c_write_serial_hex-with_tails, c_send_eoi-send_eoi}
use zig_boot.Hybrid.Features.{detect_cpu_features}
use zig_boot.Hybrid.Answers.{report}
use zig_boot.Hybrid.Report.{say, with_device, all_asked, detect_cpu_features-report}
use zig_boot.Hybrid.Start.{detect_cpus}
use zig_boot.Hybrid.Endings.{HandsOver, detect_cpus-HandsOver}
use zig_boot.Examples.{console}
use zig_boot.Examples.Machines.{ticking, ticking-IsElsewhere, with_tables, three, listed}

bios-IsBytes : IsBytes bios
bios-IsBytes a = ground arith

detect_cpus-HandsOver_example : HandsOver with_tables (5 ∷ []) (detect_cpus 17 ticking with_tables)
detect_cpus-HandsOver_example =
    detect_cpus-HandsOver 16 ticking with_tables (5 ∷ []) ticking-IsElsewhere bios-IsBytes
      (λ i. omega arith) (omega arith) (λ some_madt. listed)

-- Every digit is followed by the byte 0x41 and a NUL.
c_write_serial_hex-with_tails_example :
    transmitted (c_write_serial_hex (λ n. 0x41 ∷ 0 ∷ []) 0xBEEF console.serial).log
    ≡ transmitted console.serial.log ++ 0x30 ∷ 0x78 ∷ with_tails (λ n. 0x41 ∷ 0 ∷ []) 16 0xBEEF
c_write_serial_hex-with_tails_example =
    c_write_serial_hex-with_tails (λ n. 0x41 ∷ 0 ∷ []) 0xBEEF console.serial

c_send_eoi-send_eoi_example :
    (c_send_eoi three ≡ send_eoi three)
    ↔ ((in_x2apic three ≡ true) ⊎ (three.apic_base ≡ 0xFEE00000))
c_send_eoi-send_eoi_example = c_send_eoi-send_eoi three

detect_cpu_features-report_example :
    (detect_cpu_features three
      ≡ say (report three.device) (with_device (all_asked three.device) three))
    × Emits three (detect_cpu_features three) []
detect_cpu_features-report_example = detect_cpu_features-report three
