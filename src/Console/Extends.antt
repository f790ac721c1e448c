-- ===== src/Console/Extends.antt =====
-- Printing adds to what was sent.
use mathlib.Core.List.{append_assoc}
use zig_boot.Prelude.{ℕ, ◌^◌, ◌<◌, ◌≡◌, ◌∙◌, ap, List, ◌∷◌, ◌++◌}
use zig_boot.Console.{Console, text, puts, print_hex, print_hex_64}
use zig_boot.Console.Text.{sent, until_nul, crlf, puts_lem}
use zig_boot.Console.Print.{print_hex-PrintedHex, print_hex_64-PrintedHex}

pub record Extends (k t : Console) : Type 0 where
  pub rest : List ℕ
  pub told : sent t ≡ sent k ++ rest

pub Extends-trans : {k t u : Console} → Extends k t → Extends t u → Extends k u
Extends-trans {k} a b = record {
  rest = a.rest ++ b.rest;
  told = b.told ∙ ap (λ l. l ++ b.rest) a.told ∙ append_assoc (sent k) a.rest b.rest;
}

pub puts-Extends : (s : List ℕ) (k : Console) → Extends k (puts s k)
puts-Extends s k = record { rest = crlf (until_nul s); told = (puts_lem s k).0 }

pub print_hex-Extends : (num : ℕ) (k : Console) → num < 2 ^ 32 → Extends k (print_hex num k)
print_hex-Extends num k h =
    let p = print_hex-PrintedHex num k h in
    record { rest = 0x30 ∷ 0x78 ∷ p.digits; told = p.on_serial }

print_hex_64-Extends : (num : ℕ) (k : Console) → num < 2 ^ 64 → Extends k (print_hex_64 num k)
print_hex_64-Extends num k h =
    let p = print_hex_64-PrintedHex num k h in
    record { rest = 0x30 ∷ 0x78 ∷ p.digits; told = p.on_serial }

-- A 64-bit number after a label, on a line of its own.
pub labelled-Extends :
    (label : List ℕ) (num : ℕ) (k : Console)
    → num < 2 ^ 64
    → Extends k (puts (text "\n") (print_hex_64 num (puts label k)))
labelled-Extends label num k h =
    let k1 = puts label k in
    let k2 = print_hex_64 num k1 in
    Extends-trans (puts-Extends label k)
      (Extends-trans (print_hex_64-Extends num k1 h) (puts-Extends (text "\n") k2))
