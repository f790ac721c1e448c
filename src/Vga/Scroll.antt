-- ===== src/Vga/Scroll.antt =====
-- What the nested loops of vga.h do to the buffer, cell by cell.
use zig_boot.Prelude.{
  ℕ, ◌+◌, ◌*◌, ◌≡◌, refl, ◌&&◌, arith, Array, ltb, leb, if◌then◌else◌, for_range, for_range_inv,
}
use zig_boot.Vga.{width, height, Vga, blank, clear_row, move_row, vga_init, vga_scroll, entry_color}

-- The cells of row `y` before column `x`, and of the first `y` rows.
abbrev row_cell : ℕ → ℕ → ℕ → ℕ → ℕ → ℕ
row_cell y x j a b = if leb (y * width) j && ltb j (y * width + x) then a else b

clear_row-cell :
    (color y : ℕ) (b : Array) (j : ℕ)
    → clear_row color y b j ≡ row_cell y width j (blank color) (b j)
unfolding clear_row
clear_row-cell color y b =
    for_range_inv (λ x m. (j : ℕ) → m j ≡ row_cell y x j (blank color) (b j)) _ width 0 width b refl
      (λ x m lo hi h j. ground (arith, h j)) (λ j. ground arith)

move_row-cell :
    (y : ℕ) (b : Array) (j : ℕ) → move_row y b j ≡ row_cell y width j (b (j + width)) (b j)
unfolding move_row
move_row-cell y b =
    for_range_inv (λ x m. (j : ℕ) → m j ≡ row_cell y x j (b (j + width)) (b j)) _ width 0 width b
      refl (λ x m lo hi h j. ground (arith, h j, h ((y + 1) * width + x))) (λ j. ground arith)

moved_rows :
    (b : Array) (n j : ℕ)
    → for_range n 0 move_row b j ≡ (if ltb j (n * width) then b (j + width) else b j)
moved_rows b n =
    for_range_inv (λ y m. (j : ℕ) → m j ≡ (if ltb j (y * width) then b (j + width) else b j))
      move_row n 0 n b (omega arith)
      (λ y m lo hi h j. ground (arith, h j, h (j + width), move_row-cell y m j)) (λ j. ground arith)

-- Scrolling moves each row up by one, blanks the last and leaves memory past the screen alone.
pub vga_scroll-cell :
    (v : Vga) (j : ℕ)
    → (vga_scroll v).buffer j
      ≡ (if ltb j 1920 then v.buffer (j + 80) else if ltb j 2000 then blank v.color else v.buffer j)
unfolding vga_scroll
vga_scroll-cell v j = ground (
  arith,
  clear_row-cell v.color 24 (for_range 24 0 move_row v.buffer) j,
  moved_rows v.buffer 24 j,
)

-- After `vga_init` every cell of the screen is a light grey blank, and nothing else is written.
vga_init-cell :
    (v : Vga) (j : ℕ)
    → (vga_init v).buffer j ≡ (if ltb j 2000 then blank (entry_color 7 0) else v.buffer j)
unfolding vga_init
vga_init-cell v =
    for_range_inv (λ y m. (j : ℕ) → m j ≡ (if ltb j (y * width) then grey else v.buffer j))
      (clear_row (entry_color 7 0)) height 0 height v.buffer refl
      (λ y m lo hi h j. ground (arith, h j, clear_row-cell (entry_color 7 0) y m j))
      (λ j. ground arith)
  where
    grey : ℕ
    grey = blank (entry_color 7 0)
