-- ===== src/Console/Text.antt =====
-- What `puts` sends to the serial port and writes to the screen.
use mathlib.Core.List.{append_assoc, append-nil}
use zig_boot.Prelude.{
  ℕ, ◌≡◌, refl, ◌≢◌, ◌∙◌, inl, inr, sym, ap, List, [], ◌∷◌, ◌++◌, arith, ◌==◌, if◌then◌else◌,
  Bool-cases,
}
use zig_boot.Serial.{transmitted, putc-transmitted}
use zig_boot.Vga.{vga_putchar, vga_write}
use zig_boot.Console.{Console, putc, put_one, puts}

-- A C string ends before its first NUL.
unfoldable pub until_nul : List ℕ → List ℕ
until_nul [] = []
until_nul (c ∷ cs) = if c == 0 then [] else c ∷ until_nul cs

-- On the serial line a newline is sent as carriage return and newline.
unfoldable pub crlf : List ℕ → List ℕ
crlf [] = []
crlf (c ∷ cs) = if c == 0x0A then 0x0D ∷ c ∷ crlf cs else c ∷ crlf cs

-- The bytes sent so far.
abbrev pub sent : Console → List ℕ
sent k = transmitted k.serial.log

-- The strings of a list, printed one after another.
abbrev pub says : List (List ℕ) → Console → Console
says [] c = c
says (s ∷ strings) c = says strings (puts s c)

-- Neither NUL nor newline.
abbrev pub IsPlain : List ℕ → Type 0
IsPlain [] = Unit
IsPlain (c ∷ cs) = (c ≢ 0) × (c ≢ 0x0A) × IsPlain cs

put_one-sent :
    (c : ℕ) (k : Console)
    → sent (put_one c k) ≡ sent k ++ (if c == 0x0A then 0x0D ∷ c ∷ [] else c ∷ [])
unfolding put_one putc
put_one-sent c k = elim (Bool-cases (c == 0x0A)) [
  | inl e ↦ rw (e, putc-transmitted, putc-transmitted) (append_assoc (sent k) (0x0D ∷ []) (c ∷ []))
  | inr e ↦ rw e (putc-transmitted c k.serial)
]

put_one-vga : (c : ℕ) (k : Console) → (put_one c k).vga ≡ vga_putchar c k.vga
unfolding put_one putc
put_one-vga c k = ground arith

-- The serial port gets the string with CR before each newline, the screen gets it as it is.
pub puts_lem :
    (s : List ℕ) (k : Console)
    → (sent (puts s k) ≡ sent k ++ crlf (until_nul s))
      × ((puts s k).vga ≡ vga_write (until_nul s) k.vga)
unfolding puts crlf until_nul vga_write
puts_lem [] k = (sym (append-nil (sent k)), refl)
puts_lem (c ∷ cs) k = elim (Bool-cases (c == 0)) [
  | inl e ↦ rw e (sym (append-nil (sent k)), refl)
  | inr e ↦
      let (out, screen) = puts_lem cs (put_one c k) in
      rw e (
        out
            ∙ rw (put_one-sent c k) (elim (Bool-cases (c == 0x0A)) [
              | inl n ↦ rw n (append_assoc (sent k) (0x0D ∷ c ∷ []) (crlf (until_nul cs)))
              | inr n ↦ rw n (append_assoc (sent k) (c ∷ []) (crlf (until_nul cs)))
            ]),
        screen ∙ ap (vga_write (until_nul cs)) (put_one-vga c k),
      )
]

-- A text with neither NUL nor newline goes out as it is.
pub plain-text : (s : List ℕ) → IsPlain s → (until_nul s ≡ s) × (crlf s ≡ s)
unfolding until_nul crlf
plain-text [] h = (refl, refl)
plain-text (c ∷ cs) (z, n, h) = let (u, l) = plain-text cs h in (ground arith, ground arith)

pub puts_plain :
    (s : List ℕ) (k : Console)
    → IsPlain s
    → (sent (puts s k) ≡ sent k ++ s) × ((puts s k).vga ≡ vga_write s k.vga)
puts_plain s k h =
    let (u, l) = plain-text s h in
    let (out, screen) = puts_lem s k in
    (out ∙ rw u (ap (λ t. sent k ++ t) l), screen ∙ ap (λ t. vga_write t k.vga) u)
