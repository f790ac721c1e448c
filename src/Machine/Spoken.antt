-- ===== src/Machine/Spoken.antt =====
-- Parts of the code that only print.
use zig_boot.Prelude.{
  ℕ, ◌≡◌, refl, ◌∙◌, ap, inl, inr, Bool, if◌then◌else◌, Bool-cases, for_range, for_range_inv, arith,
}
use zig_boot.Console.{Console}
use zig_boot.Machine.{Machine}

abbrev pub with_console : Console → Machine → Machine
with_console c m = record m { kernel = record m.kernel { console = c } }

-- `t` is `m` but for the console.
pub record Spoken (m t : Machine) : Type 0 where
  pub same : t ≡ with_console t.kernel.console m

pub said : {m : Machine} {c : Console} → Spoken m (with_console c m)
said = record { same = refl }

pub Spoken-trans : {m t u : Machine} → Spoken m t → Spoken t u → Spoken m u
Spoken-trans {u = u} a b = record { same = b.same ∙ ap (with_console u.kernel.console) a.same }

pub Spoken-if :
    {m t u : Machine} (b : Bool) → Spoken m t → Spoken m u → Spoken m (if b then t else u)
Spoken-if b p q = elim (Bool-cases b) [ inl e ↦ rw e p | inr e ↦ rw e q ]

pub for_range-Spoken :
    (body : ℕ → Machine → Machine) (n : ℕ) (m : Machine)
    → ((i : ℕ) (t : Machine) → Spoken t (body i t))
    → Spoken m (for_range n 0 body m)
for_range-Spoken body n m step =
    for_range_inv (λ i t. Spoken m t) body n 0 n m (omega arith)
      (λ i t lo hi h. Spoken-trans h (step i t)) said
