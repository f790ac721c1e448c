-- ===== src/Vga/Cursor.antt =====
-- Where the cursor of vga.h stands, and which cells a character changes.
use zig_boot.Prelude.{
  ℕ, ◌+◌, ◌*◌, ◌≤◌, ◌<◌, ◌≡◌, refl, ◌≢◌, ◌∙◌, List, [], ◌∷◌, arith, store, ltb, if◌then◌else◌,
}
use zig_boot.Vga.{
  width, height, Vga, blank, entry, next_row, put_printable, vga_scroll, vga_putchar, vga_write,
}
use zig_boot.Vga.Scroll.{vga_scroll-cell}

pub record IsOnScreen (v : Vga) : Type 0 where
  pub in_rows : v.row < height
  pub in_columns : v.column < width

next_row-IsOnScreen : (v : Vga) → IsOnScreen v → IsOnScreen (next_row v)
unfolding next_row vga_scroll
next_row-IsOnScreen v s = ground arith

next_row-outside : (v : Vga) (j : ℕ) → 2000 ≤ j → (next_row v).buffer j ≡ v.buffer j
unfolding next_row
next_row-outside v j h = ground (arith, vga_scroll-cell (record v { row = 25 }) j)

-- The cursor stays on the screen, and memory past the screen stays as it is.
abbrev IsContained : Vga → Vga → Type 0
IsContained v w = IsOnScreen w × ((j : ℕ) → 2000 ≤ j → w.buffer j ≡ v.buffer j)

next_row-IsContained : (v : Vga) → IsOnScreen v → IsContained v (next_row v)
next_row-IsContained v s = (next_row-IsOnScreen v s, next_row-outside v)

-- The state of `put_printable` after the write, before the column is looked at.
abbrev written : ℕ → Vga → Vga
written c v = record v { buffer = store v.buffer (v.row * width + v.column) (entry c v.color) }

put_printable-IsContained : (c : ℕ) (v : Vga) → IsOnScreen v → IsContained v (put_printable c v)
unfolding put_printable
put_printable-IsContained c v s =
    let w = record (written c v) { column = 0 } in
    let (on, off) = next_row-IsContained w (ground arith) in
    (ground arith, λ j h. ground (arith, off j h))

putchar-IsContained : (c : ℕ) (v : Vga) → IsOnScreen v → IsContained v (vga_putchar c v)
unfolding vga_putchar
putchar-IsContained c v s =
    let w = record v { column = 0 } in
    let (on, off) = next_row-IsContained w (ground arith) in
    let (on', off') = put_printable-IsContained c v s in
    (ground arith, λ j h. ground (arith, off j h, off' j h))

-- Writing any text keeps the cursor on the screen and changes nothing past the screen.
pub vga_write-IsContained : (cs : List ℕ) (v : Vga) → IsOnScreen v → IsContained v (vga_write cs v)
unfolding vga_write
vga_write-IsContained [] v s = (s, λ j h. refl)
vga_write-IsContained (c ∷ cs) v s =
    let (on, off) = putchar-IsContained c v s in
    let (on', off') = vga_write-IsContained cs (vga_putchar c v) on in
    (on', λ j h. off' j h ∙ off j h)

next_row_below : (v : Vga) → v.row < 24 → v.column < 80 → next_row v ≡ record v { row = v.row + 1 }
unfolding next_row
next_row_below v h k = ground arith

next_row_last : (v : Vga) → v.row ≡ 24 → next_row v ≡ vga_scroll (record v { row = 25 })
unfolding next_row
next_row_last v h = ground arith

scroll_cursor : (v : Vga) → ((vga_scroll v).row ≡ 24) × ((vga_scroll v).column ≡ v.column)
unfolding vga_scroll
scroll_cursor v = (refl, refl)

-- A printable character goes to the cursor's cell, and the cursor moves on by one cell; from the
-- last cell of the screen the screen scrolls and the cursor goes to the start of the last row.
pub vga_putchar_advance :
    (c : ℕ) (v : Vga)
    → IsOnScreen v
    → c ≢ 0x0A
    → c ≢ 0x0D
    → let p = v.row * 80 + v.column in
      let w = vga_putchar c v in
      let b = store v.buffer p (entry c v.color) in
      (w.row * 80 + w.column ≡ (if ltb (p + 1) 2000 then p + 1 else 1920))
      × ((j : ℕ)
          → w.buffer j ≡ (
              if ltb (p + 1) 2000
              then b j
              else if ltb j 1920
              then b (j + 80)
              else if ltb j 2000
              then blank v.color
              else b j))
unfolding vga_putchar put_printable
vga_putchar_advance c v s n r =
    let w = record (written c v) { column = 0 } in
    let t = record w { row = 25 } in
    (
      ground (arith, next_row_below w, next_row_last w, scroll_cursor t),
      λ j. ground (arith, next_row_below w, next_row_last w, vga_scroll-cell t j),
    )
