-- ===== src/Vga.antt =====
-- c/kernel/vga.h: the text screen at 0xB8000, a buffer of 25 rows of 80 cells and a cursor.
-- A cell holds a character in its low byte and the colour in its high byte.
pub mod Scroll
pub mod Cursor
pub mod Numbers
use zig_boot.Prelude.{
  ℕ, zero, suc, ◌+◌, ◌-◌, ◌*◌, ◌/◌, ◌%◌, ◌^◌, List, [], ◌∷◌, bit_or, u8, u16, u64, Array, store,
  ◌==◌, if◌then◌else◌, for_range,
}

abbrev pub width : ℕ
width = 80

abbrev pub height : ℕ
height = 25

pub record Vga : Type 0 where
  pub row : ℕ  -- vga_row
  pub column : ℕ  -- vga_column
  pub color : ℕ  -- vga_color
  pub buffer : Array  -- vga_buffer, indexed by cell

-- The operands are promoted to int, and the result is cut to its type.
pub entry_color : ℕ → ℕ → ℕ
entry_color fg bg = u8 (bit_or fg (bg * 2 ^ 4))

pub entry : ℕ → ℕ → ℕ
entry uc color = u16 (bit_or uc (color * 2 ^ 8))

abbrev pub blank : ℕ → ℕ
blank color = entry 0x20 color

-- One row of the clearing loop of `vga_init`, and of `vga_scroll` for its last line.
pub clear_row : ℕ → ℕ → Array → Array
clear_row color y b = for_range width 0 (λ x m. store m (y * width + x) (blank color)) b

pub vga_init : Vga → Vga
unfolding clear_row
vga_init v =
    let color = entry_color 7 0 in
    record v {
      row = 0;
      column = 0;
      color = color;
      buffer = for_range height 0 (clear_row color) v.buffer;
    }

pub vga_setcolor : ℕ → Vga → Vga
vga_setcolor color v = record v { color = color }

-- The inner loop of `vga_scroll`: row `y` is overwritten by the row below it.
pub move_row : ℕ → Array → Array
move_row y b = for_range width 0 (λ x m. store m (y * width + x) (m ((y + 1) * width + x))) b

pub vga_scroll : Vga → Vga
unfolding move_row clear_row
vga_scroll v = record v {
  buffer = clear_row v.color (height - 1) (for_range (height - 1) 0 move_row v.buffer);
  row = height - 1;
}

pub vga_putentryat : ℕ → ℕ → ℕ → ℕ → Vga → Vga
vga_putentryat c color x y v = record v { buffer = store v.buffer (y * width + x) (entry c color) }

-- `if (++vga_row == VGA_HEIGHT) vga_scroll();`
pub next_row : Vga → Vga
next_row v =
    let w = record v { row = u64 (v.row + 1) } in if w.row == height then vga_scroll w else w

-- The part of `vga_putchar` after its two early returns.
pub put_printable : ℕ → Vga → Vga
unfolding vga_putentryat
put_printable c v =
    let w = vga_putentryat c v.color v.column v.row v in
    let x = u64 (v.column + 1) in
    if x == width then next_row (record w { column = 0 }) else record w { column = x }

pub vga_putchar : ℕ → Vga → Vga
vga_putchar c v =
    if c == 0x0A
    then next_row (record v { column = 0 })
    else if c == 0x0D
    then record v { column = 0 }
    else put_printable c v

-- `vga_write`, of as many characters as the list has.
unfoldable pub vga_write : List ℕ → Vga → Vga
vga_write [] v = v
vga_write (c ∷ cs) v = vga_write cs (vga_putchar c v)
