-- ===== src/Interrupts/Exceptions.antt =====
-- Which exceptions the kernel survives, and what the handler tells the console.
use mathlib.Core.List.{append_assoc}
use zig_boot.Prelude.{
  ℕ, ◌+◌, ◌^◌, ◌<◌, ◌≡◌, ◌↔◌, ◌⊎◌, ◌∙◌, refl, ap, inl, inr, arith, true, false, Bool, ◌==◌, ◌||◌,
  Bool-cases, u32, List, ◌++◌,
}
use zig_boot.Console
use zig_boot.Console.{Console, text}
use zig_boot.Console.Text.{sent, until_nul, crlf, puts_lem}
use zig_boot.Console.Extends.{
  Extends, Extends-trans, puts-Extends, print_hex-Extends, labelled-Extends,
}
use zig_boot.Machine.{Machine}
use zig_boot.Interrupts.Names.{IsName, exception_name-IsName}
use zig_boot.Interrupts.{
  Handled, returned, halted, exception_name, report_exception, exception_handler,
}

abbrev pub is_returned : Handled → Bool
is_returned (returned m) = true
is_returned (halted m) = false

abbrev pub machine_of : Handled → Machine
machine_of (returned m) = m
machine_of (halted m) = m

-- The first line of the report begins with the name of the exception.
abbrev pub headline : List ℕ → List ℕ
headline name = crlf (until_nul (text "\n[EXCEPTION] ")) ++ crlf (until_nul name)

report-Extends :
    (vector error_code rip : ℕ) (m : Machine)
    → error_code < 2 ^ 64
    → rip < 2 ^ 64
    → (rest : List ℕ) × (sent (report_exception vector error_code rip m).kernel.console
        ≡ sent m.kernel.console ++ (headline (exception_name vector) ++ rest))
unfolding report_exception
report-Extends vector error_code rip m he hr =
    let k = m.kernel.console in
    let name = exception_name vector in
    let k1 = Console.puts (text "\n[EXCEPTION] ") k in
    let k2 = Console.puts name k1 in
    let k3 = Console.puts (text " (Vector ") k2 in
    let k4 = Console.print_hex (u32 vector) k3 in
    let k5 = Console.puts (text ")\n") k4 in
    let k6 =
      Console.puts (text "\n")
        (Console.print_hex_64 error_code (Console.puts (text "  Error Code: ") k5)) in
    let line = Extends-trans (puts-Extends (text " (Vector ") k2) (
      Extends-trans (print_hex-Extends (u32 vector) k3 (omega arith))
        (puts-Extends (text ")\n") k4)) in
    let e = Extends-trans line (
      Extends-trans (labelled-Extends (text "  Error Code: ") error_code k5 he)
        (labelled-Extends (text "  RIP: ") rip k6 hr)) in
    let first = crlf (until_nul (text "\n[EXCEPTION] ")) in
    let second = crlf (until_nul name) in
    let named : sent k2 ≡ sent k ++ (first ++ second) =
      (puts_lem name k1).0
      ∙ ap (λ l. l ++ second) (puts_lem (text "\n[EXCEPTION] ") k).0
      ∙ append_assoc (sent k) first second in
    (e.rest, e.told ∙ ap (λ l. l ++ e.rest) named ∙ append_assoc (sent k) (headline name) e.rest)

said :
    (old line : List ℕ) {k t : Console} (rest : List ℕ)
    → sent k ≡ old ++ (line ++ rest)
    → Extends k t
    → (more : List ℕ) × (sent t ≡ old ++ (line ++ more))
said old line rest told e = (
  rest ++ e.rest,
  e.told
      ∙ ap (λ l. l ++ e.rest) told
      ∙ append_assoc old (line ++ rest) e.rest
      ∙ ap (λ l. old ++ l) (append_assoc line rest e.rest),
)

-- Exactly the breakpoint (vector 3) and vector 255 let the code go on, every other exception halts
-- the processor; each is counted, nothing is told to a device but the console, and the console's serial line
-- gets a report that begins with the name of the vector as `IsName` lists it.
pub exception_handler_lem :
    (vector error_code rip : ℕ) (m : Machine)
    → error_code < 2 ^ 64
    → rip < 2 ^ 64
    → let h = exception_handler vector error_code rip m in
      let t = machine_of h in
      ((is_returned h ≡ true) ↔ ((vector ≡ 3) ⊎ (vector ≡ 255)))
      × (t.exception_count ≡ u32 (m.exception_count + 1))
      × (t.device ≡ m.device)
      × ((name : List ℕ) × IsName vector name
          × ((rest : List ℕ) × (sent t.kernel.console
                ≡ sent m.kernel.console ++ (headline name ++ rest))))
unfolding exception_handler report_exception
exception_handler_lem vector error_code rip m he hr =
    let name = exception_name vector in
    let m1 = record m { exception_count = u32 (m.exception_count + 1) } in
    let (rest, told) = report-Extends vector error_code rip m1 he hr in
    let k = (report_exception vector error_code rip m1).kernel.console in
    elim (Bool-cases (vector == 3 || vector == 255)) [
      | inl e ↦ rw e (
        (λ x. ground arith, λ x. refl),
        refl,
        refl,
        (name, exception_name-IsName vector, said _ (headline name) rest told (puts-Extends _ k)),
      )
      | inr e ↦ rw e (
        (λ x. ground arith, λ x. ground arith),
        refl,
        refl,
        (name, exception_name-IsName vector, said _ (headline name) rest told (puts-Extends _ k)),
      )
    ]
