-- ===== src/Acpi/Search.antt =====
-- What the two searches and the checksum compute.
use mathlib.Core.Path.{fun_ext}
use zig_boot.Prelude.{
  ℕ, zero, suc, ◌+◌, ◌*◌, ◌%◌, ◌^◌, ◌<◌, ◌≡◌, refl, ◌∙◌, ap, inl, inr, Bool, true, false, arith,
  ◌==◌, u8, Array, for_range_inv, sum_to, sum_to-add_one, Bool-cases, subst, ap₂, ◌&&◌,
}
use zig_boot.Console.{text}
use zig_boot.Acpi.{acpi_checksum, int_rounds, has_text, is_rsdp, rsdp_loop, acpi_find_rsdp}

-- The checksum holds when the sum of the bytes is a multiple of 256.
pub acpi_checksum_lem :
    (m : Array) (ptr length : ℕ)
    → length < 2 ^ 31
    → acpi_checksum m ptr length ≡ (sum_to length (λ i. m (ptr + i)) % 256 == 0)
unfolding acpi_checksum
acpi_checksum_lem m ptr length h =
    let all : int_rounds length ≡ length = ground arith in
    rw all (
      ap (λ s. s == 0)
        (for_range_inv (λ i s. s ≡ sum_to i (λ j. m (ptr + j)) % 256)
          (λ i sum. u8 (sum + m (ptr + i))) length 0 length 0 (omega arith)
          (λ i s lo hi e. omega (arith, e, sum_to-add_one i (λ j. m (ptr + j))))
          (unfold sum_to in refl)))

-- A search over the places `at 0`, `at 1`, …, `n` of them: the first that passes, or 0 when none does.
pub data FirstOf (n : ℕ) (at : ℕ → ℕ) (test : ℕ → Bool) : ℕ → Type 0 where
  found :
      {r : ℕ} (i : ℕ)
      → i < n
      → r ≡ at i
      → test (at i) ≡ true
      → ((j : ℕ) → j < i → test (at j) ≡ false)
      → FirstOf n at test r
  missing : ((j : ℕ) → j < n → test (at j) ≡ false) → FirstOf n at test 0

-- One more place in front.
first_later :
    (n : ℕ) (at : ℕ → ℕ) (test : ℕ → Bool) {r : ℕ}
    → test (at 0) ≡ false
    → FirstOf n (λ i. at (i + 1)) test r
    → FirstOf (suc n) at test r
first_later n at test miss (found i l e ok low) =
    found (i + 1) (omega arith) e ok (λ j h. earlier j h)
  where
    earlier : (j : ℕ) → j < i + 1 → test (at j) ≡ false
    earlier zero h = miss
    earlier (suc j) h = ground (arith, low j (omega arith))
first_later n at test miss (missing none_of) = missing (λ j h. earlier j h)
  where
    earlier : (j : ℕ) → j < suc n → test (at j) ≡ false
    earlier zero h = miss
    earlier (suc j) h = ground (arith, none_of j (omega arith))

rsdp_loop_lem :
    (n : ℕ) (at : ℕ → ℕ) (m : Array) (ptr : ℕ)
    → ((i : ℕ) → at i ≡ ptr + 16 * i)
    → FirstOf n at (is_rsdp m) (rsdp_loop n m ptr)
unfolding rsdp_loop
rsdp_loop_lem zero at m ptr e = missing (λ j h. elim h [ ])
rsdp_loop_lem (suc n) at m ptr e =
    let start : at 0 ≡ ptr = omega (arith, e 0) in
    elim (Bool-cases (is_rsdp m ptr)) [
      | inl hit ↦ rw hit (found 0 (omega arith) (omega arith) (rw start hit) (λ j h. elim h [ ]))
      | inr miss ↦ rw miss (
          first_later n at (is_rsdp m) (rw start miss)
            (rsdp_loop_lem n (λ i. at (i + 1)) m (ptr + 16) (λ i. omega (arith, e (i + 1)))))
    ]

-- The bytes at `ptr` are the ASCII codes of "RSD PTR ".
abbrev pub is_signed : Array → ℕ → Bool
is_signed m ptr =
    m ptr == 82
    && (m (ptr + 1) == 83
        && (m (ptr + 2) == 68
            && (m (ptr + 3) == 32
                && (m (ptr + 4) == 80
                    && (m (ptr + 5) == 84 && (m (ptr + 6) == 82 && (m (ptr + 7) == 32)))))))

-- The first 20 bytes have a sum that is a multiple of 256, too.
abbrev pub starts_rsdp : Array → ℕ → Bool
starts_rsdp m ptr = is_signed m ptr && sum_to 20 (λ i. m (ptr + i)) % 256 == 0

has_text-is_signed : (m : Array) (ptr : ℕ) → has_text m ptr (text "RSD PTR ") ≡ is_signed m ptr
unfolding has_text text
has_text-is_signed m ptr =
    let spelled : has_text m ptr (text "RSD PTR ") ≡ (
        m ptr == 82
        && (m (ptr + 1) == 83
            && (m (ptr + 1 + 1) == 68
                && (m (ptr + 1 + 1 + 1) == 32
                    && (m (ptr + 1 + 1 + 1 + 1) == 80
                        && (m (ptr + 1 + 1 + 1 + 1 + 1) == 84
                            && (m (ptr + 1 + 1 + 1 + 1 + 1 + 1) == 82
                                && (m (ptr + 1 + 1 + 1 + 1 + 1 + 1 + 1) == 32 && (true))))))))) =
      refl in
    spelled ∙ ground arith

is_rsdp-starts_rsdp : (m : Array) (ptr : ℕ) → is_rsdp m ptr ≡ starts_rsdp m ptr
unfolding is_rsdp
is_rsdp-starts_rsdp m ptr =
    ap₂ ◌&&◌ (has_text-is_signed m ptr) (acpi_checksum_lem m ptr 20 (omega arith))

-- `acpi_find_rsdp` returns the first of the 8192 paragraphs from 0xE0000 on that starts with the bytes of
-- "RSD PTR " and whose first 20 bytes sum up to a multiple of 256, and 0 when there is none.
pub acpi_find_rsdp-FirstOf :
    (m : Array) → FirstOf 8192 (λ i. 0xE0000 + 16 * i) (starts_rsdp m) (acpi_find_rsdp m)
unfolding acpi_find_rsdp
acpi_find_rsdp-FirstOf m =
    subst (λ test. FirstOf 8192 (λ i. 0xE0000 + 16 * i) test (acpi_find_rsdp m))
      (fun_ext (is_rsdp-starts_rsdp m)) (rsdp_loop_lem 8192 _ m 0xE0000 (λ i. refl))
