-- ===== src/Interrupts/Names.antt =====
-- The name that `exception_handler` prints for each vector.
use zig_boot.Prelude.{
  ℕ, zero, suc, ◌≤◌, ◌≡◌, ◌≢◌, ◌⊎◌, refl, subst, inl, inr, arith, ◌==◌, ltb, false, Bool-cases,
  List,
}
use zig_boot.Console.{text}
use zig_boot.Interrupts.{exception_name, name_at}

-- The names of the vectors.
pub data IsName : ℕ → List ℕ → Type 0 where
  division_by_zero : IsName 0 (text "Division By Zero")
  debug : IsName 1 (text "Debug")
  non_maskable_interrupt : IsName 2 (text "Non-Maskable Interrupt")
  breakpoint : IsName 3 (text "Breakpoint")
  overflow : IsName 4 (text "Overflow")
  bound_range_exceeded : IsName 5 (text "Bound Range Exceeded")
  invalid_opcode : IsName 6 (text "Invalid Opcode")
  device_not_available : IsName 7 (text "Device Not Available")
  double_fault : IsName 8 (text "Double Fault")
  coprocessor_segment_overrun : IsName 9 (text "Coprocessor Segment Overrun")
  invalid_tss : IsName 10 (text "Invalid TSS")
  segment_not_present : IsName 11 (text "Segment Not Present")
  stack_segment_fault : IsName 12 (text "Stack-Segment Fault")
  general_protection_fault : IsName 13 (text "General Protection Fault")
  page_fault : IsName 14 (text "Page Fault")
  x87_floating_point_exception : IsName 16 (text "x87 Floating-Point Exception")
  alignment_check : IsName 17 (text "Alignment Check")
  machine_check : IsName 18 (text "Machine Check")
  simd_floating_point_exception : IsName 19 (text "SIMD Floating-Point Exception")
  virtualization_exception : IsName 20 (text "Virtualization Exception")
  control_protection_exception : IsName 21 (text "Control Protection Exception")
  hypervisor_injection_exception : IsName 28 (text "Hypervisor Injection Exception")
  vmm_communication_exception : IsName 29 (text "VMM Communication Exception")
  security_exception : IsName 30 (text "Security Exception")
  reserved :
      {vector : ℕ}
      → (vector ≡ 15) ⊎ (((22 ≤ vector) × (vector ≤ 27)) ⊎ (vector ≡ 31))
      → IsName vector (text "Reserved")
  spurious : IsName 255 (text "Spurious/Unhandled Interrupt")
  unknown : {vector : ℕ} → 32 ≤ vector → vector ≢ 255 → IsName vector (text "Unknown Exception")

high_vector : (vector : ℕ) → 32 ≤ vector → IsName vector (exception_name vector)
unfolding exception_name
high_vector vector h =
    let out : ltb vector 32 ≡ false = ground arith in
    elim (Bool-cases (vector == 255)) [
      | inl e ↦
          let same : 255 ≡ vector = ground arith in
          rw (out, e) (subst (λ v. IsName v (text "Spurious/Unhandled Interrupt")) same spurious)
      | inr e ↦ rw (out, e) (unknown h (ground arith))
    ]

-- Each vector is printed with its name.
pub exception_name-IsName : (vector : ℕ) → IsName vector (exception_name vector)
unfolding exception_name name_at
exception_name-IsName zero = division_by_zero
exception_name-IsName (suc zero) = debug
exception_name-IsName (suc (suc zero)) = non_maskable_interrupt
exception_name-IsName (suc (suc (suc zero))) = breakpoint
exception_name-IsName (suc (suc (suc (suc zero)))) = overflow
exception_name-IsName (suc (suc (suc (suc (suc zero))))) = bound_range_exceeded
exception_name-IsName (suc (suc (suc (suc (suc (suc zero)))))) = invalid_opcode
exception_name-IsName (suc (suc (suc (suc (suc (suc (suc zero))))))) = device_not_available
exception_name-IsName (suc (suc (suc (suc (suc (suc (suc (suc zero)))))))) = double_fault
exception_name-IsName (suc (suc (suc (suc (suc (suc (suc (suc (suc zero))))))))) =
    coprocessor_segment_overrun
exception_name-IsName (suc (suc (suc (suc (suc (suc (suc (suc (suc (suc zero)))))))))) = invalid_tss
exception_name-IsName (suc (suc (suc (suc (suc (suc (suc (suc (suc (suc (suc zero))))))))))) =
    segment_not_present
exception_name-IsName (suc (suc (suc (suc (suc (suc (suc (suc (suc (suc (suc (suc zero)))))))))))) =
    stack_segment_fault
exception_name-IsName
      (suc (suc (suc (suc (suc (suc (suc (suc (suc (suc (suc (suc (suc zero))))))))))))) =
    general_protection_fault
exception_name-IsName
      (suc (suc (suc (suc (suc (suc (suc (suc (suc (suc (suc (suc (suc (suc zero)))))))))))))) =
    page_fault
exception_name-IsName
      (suc
        (suc (suc (suc (suc (suc (suc (suc (suc (suc (suc (suc (suc (suc (suc zero))))))))))))))) =
    reserved (inl refl)
exception_name-IsName
      (suc (
        suc (
          suc
            (suc (suc (suc (suc (suc (suc (suc (suc (suc (suc (suc (suc (suc zero)))))))))))))))) =
    x87_floating_point_exception
exception_name-IsName
      (suc (
        suc (
          suc (
            suc (
              suc
                (suc (suc (suc (suc (suc (suc (suc (suc (suc (suc (suc (suc zero))))))))))))))))) =
    alignment_check
exception_name-IsName
      (suc (
        suc (
          suc (
            suc (
              suc (
                suc (
                  suc
                    (suc (suc (suc (suc (suc (suc (suc (suc (suc (suc (suc zero)))))))))))))))))) =
    machine_check
exception_name-IsName
      (suc (
        suc (
          suc (
            suc (
              suc (
                suc (
                  suc (
                    suc (
                      suc
                        (suc (suc (suc (suc (suc (suc (suc (suc (suc (suc zero))))))))))))))))))) =
    simd_floating_point_exception
exception_name-IsName
      (suc (
        suc (
          suc (
            suc (
              suc (
                suc (
                  suc (
                    suc (
                      suc (
                        suc (
                          suc
                            (suc (suc (suc (suc (suc (suc (suc (suc (suc zero)))))))))))))))))))) =
    virtualization_exception
exception_name-IsName
      (suc (
        suc (
          suc (
            suc (
              suc (
                suc (
                  suc (
                    suc (
                      suc (
                        suc (
                          suc (
                            suc (
                              suc
                                (suc (suc (suc (suc (suc (suc (suc (suc zero))))))))))))))))))))) =
    control_protection_exception
exception_name-IsName
      (suc (
        suc (
          suc (
            suc (
              suc (
                suc (
                  suc (
                    suc (
                      suc (
                        suc (
                          suc (
                            suc (
                              suc (
                                suc (
                                  suc
                                    (suc (suc (suc (suc (suc (suc (suc zero)))))))))))))))))))))) =
    reserved (inr (inl (omega arith, omega arith)))
exception_name-IsName
      (suc (
        suc (
          suc (
            suc (
              suc (
                suc (
                  suc (
                    suc (
                      suc (
                        suc (
                          suc (
                            suc (
                              suc (
                                suc (
                                  suc (
                                    suc (
                                      suc
                                        (suc (suc (suc (suc (suc (suc zero))))))))))))))))))))))) =
    reserved (inr (inl (omega arith, omega arith)))
exception_name-IsName
      (suc (
        suc (
          suc (
            suc (
              suc (
                suc (
                  suc (
                    suc (
                      suc (
                        suc (
                          suc (
                            suc (
                              suc (
                                suc (
                                  suc (
                                    suc (
                                      suc (
                                        suc (
                                          suc
                                            (suc (suc (suc (suc (suc zero)))))))))))))))))))))))) =
    reserved (inr (inl (omega arith, omega arith)))
exception_name-IsName
      (suc (
        suc (
          suc (
            suc (
              suc (
                suc (
                  suc (
                    suc (
                      suc (
                        suc (
                          suc (
                            suc (
                              suc (
                                suc (
                                  suc (
                                    suc (
                                      suc (
                                        suc (
                                          suc (
                                            suc (
                                              suc
                                                (suc (suc (suc (suc zero))))))))))))))))))))))))) =
    reserved (inr (inl (omega arith, omega arith)))
exception_name-IsName
      (suc (
        suc (
          suc (
            suc (
              suc (
                suc (
                  suc (
                    suc (
                      suc (
                        suc (
                          suc (
                            suc (
                              suc (
                                suc (
                                  suc (
                                    suc (
                                      suc (
                                        suc (
                                          suc (
                                            suc (
                                              suc (
                                                suc (
                                                  suc
                                                    (suc (suc (suc zero)))))))))))))))))))))))))) =
    reserved (inr (inl (omega arith, omega arith)))
exception_name-IsName
      (suc (
        suc (
          suc (
            suc (
              suc (
                suc (
                  suc (
                    suc (
                      suc (
                        suc (
                          suc (
                            suc (
                              suc (
                                suc (
                                  suc (
                                    suc (
                                      suc (
                                        suc (
                                          suc (
                                            suc (
                                              suc (
                                                suc (
                                                  suc (
                                                    suc (
                                                      suc
                                                        (suc (suc zero))))))))))))))))))))))))))) =
    reserved (inr (inl (omega arith, omega arith)))
exception_name-IsName
      (suc (
        suc (
          suc (
            suc (
              suc (
                suc (
                  suc (
                    suc (
                      suc (
                        suc (
                          suc (
                            suc (
                              suc (
                                suc (
                                  suc (
                                    suc (
                                      suc (
                                        suc (
                                          suc (
                                            suc (
                                              suc (
                                                suc (
                                                  suc (
                                                    suc (
                                                      suc (
                                                        suc (
                                                          suc
                                                            (suc zero)))))))))))))))))))))))))))) =
    hypervisor_injection_exception
exception_name-IsName
      (suc (
        suc (
          suc (
            suc (
              suc (
                suc (
                  suc (
                    suc (
                      suc (
                        suc (
                          suc (
                            suc (
                              suc (
                                suc (
                                  suc (
                                    suc (
                                      suc (
                                        suc (
                                          suc (
                                            suc (
                                              suc (
                                                suc (
                                                  suc (
                                                    suc (
                                                      suc (
                                                        suc (
                                                          suc (
                                                            suc
                                                            (suc zero))))))))))))))))))))))))))))) =
    vmm_communication_exception
exception_name-IsName
      (suc (
        suc (
          suc (
            suc (
              suc (
                suc (
                  suc (
                    suc (
                      suc (
                        suc (
                          suc (
                            suc (
                              suc (
                                suc (
                                  suc (
                                    suc (
                                      suc (
                                        suc (
                                          suc (
                                            suc (
                                              suc (
                                                suc (
                                                  suc (
                                                    suc (
                                                      suc (
                                                        suc (
                                                          suc (
                                                            suc (
                                                            suc (
                                                            suc zero)))))))))))))))))))))))))))))) =
    security_exception
exception_name-IsName
      (suc (
        suc (
          suc (
            suc (
              suc (
                suc (
                  suc (
                    suc (
                      suc (
                        suc (
                          suc (
                            suc (
                              suc (
                                suc (
                                  suc (
                                    suc (
                                      suc (
                                        suc (
                                          suc (
                                            suc (
                                              suc (
                                                suc (
                                                  suc (
                                                    suc (
                                                      suc (
                                                        suc (
                                                          suc (
                                                            suc (
                                                            suc (
                                                            suc (
                                                            suc
                                                            zero))))))))))))))))))))))))))))))) =
    reserved (inr (inr refl))
exception_name-IsName
      (suc (
        suc (
          suc (
            suc (
              suc (
                suc (
                  suc (
                    suc (
                      suc (
                        suc (
                          suc (
                            suc (
                              suc (
                                suc (
                                  suc (
                                    suc (
                                      suc (
                                        suc (
                                          suc (
                                            suc (
                                              suc (
                                                suc (
                                                  suc (
                                                    suc (
                                                      suc (
                                                        suc (
                                                          suc (
                                                            suc (
                                                            suc (
                                                            suc (
                                                            suc
                                                            (suc n)))))))))))))))))))))))))))))))) =
    high_vector
      (suc (
        suc (
          suc (
            suc (
              suc (
                suc (
                  suc (
                    suc (
                      suc (
                        suc (
                          suc (
                            suc (
                              suc (
                                suc (
                                  suc (
                                    suc (
                                      suc (
                                        suc (
                                          suc (
                                            suc (
                                              suc (
                                                suc (
                                                  suc (
                                                    suc (
                                                      suc (
                                                        suc (
                                                          suc (
                                                            suc (
                                                            suc (
                                                            suc (
                                                            suc
                                                            (suc n))))))))))))))))))))))))))))))))
      (omega arith)
