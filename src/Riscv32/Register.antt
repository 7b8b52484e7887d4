-- ===== src/Riscv32/Register.antt =====
-- The integer registers of CodeGenerator_riscv32.hpp, with the numbers that the enum gives them.
use sasc.Prelude.{ℕ, ◌<◌, arith}

pub data Register : Type 0 where
  x_zero ra sp gp tp t0 t1 t2 fp s1 a0 a1 a2 a3 a4 a5 a6 a7 : Register
  s2 s3 s4 s5 s6 s7 s8 s9 s10 s11 t3 t4 t5 t6 : Register

-- `uint32_t(reg)`.
unfoldable pub reg_number : Register → ℕ
reg_number x_zero = 0
reg_number ra = 1
reg_number sp = 2
reg_number gp = 3
reg_number tp = 4
reg_number t0 = 5
reg_number t1 = 6
reg_number t2 = 7
reg_number fp = 8
reg_number s1 = 9
reg_number a0 = 10
reg_number a1 = 11
reg_number a2 = 12
reg_number a3 = 13
reg_number a4 = 14
reg_number a5 = 15
reg_number a6 = 16
reg_number a7 = 17
reg_number s2 = 18
reg_number s3 = 19
reg_number s4 = 20
reg_number s5 = 21
reg_number s6 = 22
reg_number s7 = 23
reg_number s8 = 24
reg_number s9 = 25
reg_number s10 = 26
reg_number s11 = 27
reg_number t3 = 28
reg_number t4 = 29
reg_number t5 = 30
reg_number t6 = 31

pub reg_number-lt : (r : Register) → reg_number r < 32
unfolding reg_number
reg_number-lt x_zero = omega arith
reg_number-lt _ = omega arith
