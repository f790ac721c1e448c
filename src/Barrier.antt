-- ===== src/Barrier.antt =====
-- c/kernel/minimal_step9.c, `barrier_wait` as the atomic steps of the processors that call it.
pub mod Safety
pub mod Progress
pub mod Absent
mod Examples
use zig_boot.Prelude.{ℕ, ◌+◌, ◌<◌, ◌≡◌, ◌≢◌, ◌==◌, if◌then◌else◌, u32, Array, store}

-- Where a processor is: outside, past the read of `barrier_sense`, in the loop that waits, past the
-- addition as the last one to arrive, past the reset of `barrier_count`.
abbrev pub outside : ℕ
outside = 0

abbrev pub entered : ℕ
entered = 1

abbrev pub waiting : ℕ
waiting = 2

abbrev pub arrived_last : ℕ
arrived_last = 3

abbrev pub flipping : ℕ
flipping = 4

-- The two shared variables; for each processor where it is, its `my_sense`, and how many barriers it
-- has left.
pub record Barrier : Type 0 where
  pub barrier_count : ℕ
  pub barrier_sense : ℕ
  pub place : Array
  pub my_sense : Array
  pub passed : Array

-- The processor `i` leaves `barrier_wait`.
abbrev pub leave : ℕ → Barrier → Barrier
leave i b = record b { place = store b.place i outside; passed = store b.passed i (b.passed i + 1) }

-- The effects of the steps of the processor `i`: `my_sense = barrier_sense`,
abbrev pub on_read : ℕ → Barrier → Barrier
on_read i b = record b {
  place = store b.place i entered;
  my_sense = store b.my_sense i b.barrier_sense;
}

-- the atomic addition, after which the processor is at `next`,
abbrev pub on_arrive : ℕ → ℕ → Barrier → Barrier
on_arrive next i b = record b {
  barrier_count = u32 (b.barrier_count + 1);
  place = store b.place i next;
}

-- `barrier_count = 0`,
abbrev pub on_reset : ℕ → Barrier → Barrier
on_reset i b = record b { barrier_count = 0; place = store b.place i flipping }

-- and the store of `!my_sense`, which ends the call.
abbrev pub on_flip : ℕ → Barrier → Barrier
on_flip i b = leave i (record b { barrier_sense = if b.my_sense i == 0 then 1 else 0 })

-- One atomic step of one of `cpu_count` processors.
pub data Step (cpu_count : ℕ) (b : Barrier) : Barrier → Type 0 where
  read_sense : (i : ℕ) → i < cpu_count → b.place i ≡ outside → Step cpu_count b (on_read i b)
  arrive :
      (i : ℕ)
      → i < cpu_count
      → b.place i ≡ entered
      → u32 (b.barrier_count + 1) ≢ cpu_count
      → Step cpu_count b (on_arrive waiting i b)
  arrive_last :
      (i : ℕ)
      → i < cpu_count
      → b.place i ≡ entered
      → u32 (b.barrier_count + 1) ≡ cpu_count
      → Step cpu_count b (on_arrive arrived_last i b)
  reset : (i : ℕ) → i < cpu_count → b.place i ≡ arrived_last → Step cpu_count b (on_reset i b)
  flip : (i : ℕ) → i < cpu_count → b.place i ≡ flipping → Step cpu_count b (on_flip i b)
  see_flip :
      (i : ℕ)
      → i < cpu_count
      → b.place i ≡ waiting
      → b.barrier_sense ≢ b.my_sense i
      → Step cpu_count b (leave i b)

-- Both variables are 0 and no processor has called the function.
pub record IsStart (b : Barrier) : Type 0 where
  pub no_count : b.barrier_count ≡ 0
  pub no_sense : b.barrier_sense ≡ 0
  pub all_outside : (i : ℕ) → b.place i ≡ outside
  pub none_passed : (i : ℕ) → b.passed i ≡ 0

pub data Reachable (cpu_count : ℕ) : Barrier → Type 0 where
  start : {b : Barrier} → IsStart b → Reachable cpu_count b
  next : {b c : Barrier} → Reachable cpu_count b → Step cpu_count b c → Reachable cpu_count c
