-- ===== src/Apic/Quiet.antt =====
-- What the local APIC is told apart from the ends of interrupts, which the interrupt handlers tell it at
-- times of their own.
use zig_boot.Prelude.{
  ◌≡◌, ◌∙◌, refl, ap, ap₂, inl, inr, ◌==◌, if◌then◌else◌, Bool-cases, List, [], ◌∷◌, ◌++◌,
}
use zig_boot.Machine.{Machine}
use zig_boot.Apic.Events.{ApicEvent, ipi, setting, Emits, Emits-trans}

-- Register 0xB0 takes the end of an interrupt.
unfoldable pub without_eois : List ApicEvent → List ApicEvent
without_eois [] = []
without_eois (ipi id flags ∷ l) = ipi id flags ∷ without_eois l
without_eois (setting reg value ∷ l) =
    let rest = without_eois l in if reg == 0xB0 then rest else setting reg value ∷ rest

pub without_eois-append :
    (l r : List ApicEvent) → without_eois (l ++ r) ≡ without_eois l ++ without_eois r
unfolding without_eois
without_eois-append [] r = refl
without_eois-append (ipi id flags ∷ l) r = ap (λ x. ipi id flags ∷ x) (without_eois-append l r)
without_eois-append (setting reg value ∷ l) r = elim (Bool-cases (reg == 0xB0)) [
  | inl e ↦ rw e (without_eois-append l r)
  | inr e ↦ rw e (ap (λ x. setting reg value ∷ x) (without_eois-append l r))
]

-- From `m` to `t` the APIC is told exactly the events `es`, the newest first, and the ends of any number
-- of interrupts, before, between and after them.
pub record Tells (m t : Machine) (es : List ApicEvent) : Type 0 where
  pub all : List ApicEvent
  pub emits : Emits m t all
  pub told : without_eois all ≡ es

pub Emits-Tells :
    {m t : Machine} {es : List ApicEvent} → without_eois es ≡ es → Emits m t es → Tells m t es
Emits-Tells {m} {t} {es} e h = record { all = es; emits = h; told = e }

pub Tells-trans :
    {m t u : Machine} {es fs : List ApicEvent} → Tells m t es → Tells t u fs → Tells m u (fs ++ es)
Tells-trans {m} {t} {u} {es} {fs} a b = record {
  all = b.all ++ a.all;
  emits = Emits-trans a.emits b.emits;
  told = without_eois-append b.all a.all ∙ ap₂ (λ (x y : List ApicEvent). x ++ y) b.told a.told;
}
