-- ===== src/Kernel.antt =====
-- The state of c/kernel/minimal_step9.c that its parts share: the console, memory by bytes, and the
-- static variables of the PMM, of the heap and of the search for processors. `kernel_start` and `kernel_end` are
-- the symbols of the linker script.
use zig_boot.Prelude.{ℕ, List, Array}
use zig_boot.Console
use zig_boot.Console.{Console}

pub record Kernel : Type 0 where
  pub console : Console
  pub mem : Array
  pub kernel_start : ℕ
  pub kernel_end : ℕ
  pub pmm_bitmap : ℕ
  pub total_pages : ℕ
  pub used_pages : ℕ
  pub bitmap_size : ℕ
  pub total_memory : ℕ
  pub usable_memory : ℕ
  pub heap_start : ℕ
  pub heap_current : ℕ
  pub heap_end : ℕ
  pub cpu_apic_ids : Array
  pub cpu_count : ℕ

abbrev pub puts : List ℕ → Kernel → Kernel
puts s k = record k { console = Console.puts s k.console }

abbrev pub print_dec : ℕ → Kernel → Kernel
print_dec n k = record k { console = Console.print_dec n k.console }

abbrev pub print_dec_64 : ℕ → Kernel → Kernel
print_dec_64 n k = record k { console = Console.print_dec_64 n k.console }

abbrev pub print_hex_64 : ℕ → Kernel → Kernel
print_hex_64 n k = record k { console = Console.print_hex_64 n k.console }

abbrev pub print_hex : ℕ → Kernel → Kernel
print_hex n k = record k { console = Console.print_hex n k.console }
