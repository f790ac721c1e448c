-- ===== src/Machine.antt =====
-- The state of c/kernel/minimal_step9.c as its `kernel_main` sees it: the part that the memory
-- managers share, the devices, the descriptor table, the parallel results and the counters.
pub mod Spoken
use zig_boot.Prelude.{ℕ, ◌+◌, List, Array}
use zig_boot.Kernel
use zig_boot.Kernel.{Kernel}
use zig_boot.Device
use zig_boot.Device.{Device, Access}
use zig_boot.Idt.{Idt, Handlers}
use zig_boot.Parallel.{Results}

-- What the linker gives: the trampoline, the entry point and the stacks of the other processors,
-- and the handlers.
pub record Symbols : Type 0 where
  pub trampoline_start : ℕ
  pub trampoline_end : ℕ
  pub ap_entry_address : ℕ
  pub ap_stacks : ℕ
  pub handlers : Handlers

pub record Machine : Type 0 where
  pub kernel : Kernel
  pub device : Device
  pub symbols : Symbols
  pub use_x2apic : ℕ
  pub apic_base : ℕ
  pub idt : Idt
  pub results : Results
  pub cpus_online : ℕ
  pub tsc_khz : ℕ
  pub pml4 : ℕ
  pub timer_init_debug : Array
  pub exception_count : ℕ
  pub global_timer_calls : ℕ
  pub timer_ticks : Array

abbrev pub puts : List ℕ → Machine → Machine
puts s m = record m { kernel = Kernel.puts s m.kernel }

abbrev pub print_dec : ℕ → Machine → Machine
print_dec n m = record m { kernel = Kernel.print_dec n m.kernel }

abbrev pub print_dec_64 : ℕ → Machine → Machine
print_dec_64 n m = record m { kernel = Kernel.print_dec_64 n m.kernel }

abbrev pub print_hex : ℕ → Machine → Machine
print_hex n m = record m { kernel = Kernel.print_hex n m.kernel }

abbrev pub print_hex_64 : ℕ → Machine → Machine
print_hex_64 n m = record m { kernel = Kernel.print_hex_64 n m.kernel }

abbrev pub perform : Access → Machine → Machine
perform a m = record m { device = Device.perform a m.device }

-- The machine after a read, and the value read.
abbrev pub read : Access → Machine → Machine × ℕ
read a m = (record m { device = (Device.read a m.device).0 }, (Device.read a m.device).1)
