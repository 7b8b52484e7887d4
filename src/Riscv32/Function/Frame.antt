-- ===== src/Riscv32/Function/Frame.antt =====
-- Where the spilled registers lie in the frame that `lower_function` of CodeGenerator_riscv32.cpp
-- makes.
use sasc.Prelude.{ℕ, ◌+◌, ◌-◌, ◌%◌, ◌^◌, ◌≤◌, ◌<◌, ◌≡◌, ◌↔◌, arith}
use sasc.Riscv32.Alloc.{spill_offset}
use sasc.Riscv32.Function.{padded_stack_size}

-- Of less than 2 ^ 28 spilled registers no two overlap: the words at the offsets from the frame
-- pointer are apart, and below the eight bytes of the saved registers at the top of the frame.
pub spill_offset-apart :
    (i j : ℕ)
    → i < j
    → j < 2 ^ 28
    → (spill_offset j + 4 ≤ spill_offset i) × (spill_offset i + 4 ≤ 2 ^ 32 - 8)
unfolding spill_offset
spill_offset-apart i j lt small = omega arith

-- With `n` spilled registers, the frame is a multiple of 16 bytes, and the last of them lies below
-- it, and so below the stack pointer, exactly where `n` leaves the remainder 2 by 4.
pub padded_stack_size-below :
    (n : ℕ)
    → 1 ≤ n
    → n < 2 ^ 28
    → (padded_stack_size n % 16 ≡ 0)
      × ((spill_offset (n - 1) < 2 ^ 32 - padded_stack_size n) ↔ (n % 4 ≡ 2))
unfolding spill_offset padded_stack_size
padded_stack_size-below n pos small = (omega arith, (λ h. omega arith, λ h. omega arith))
