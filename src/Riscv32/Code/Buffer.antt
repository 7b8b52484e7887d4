-- ===== src/Riscv32/Code/Buffer.antt =====
-- The struct `CodeBuffer` of CodeGenerator_riscv32.cpp: a vector of encoded instructions.
use sasc.Prelude.{ℕ, ◌-◌, ◌/◌, ◌%◌, ◌^◌, List, [], ◌∷◌, ◌++◌, length}

pub data InstructionFormat : Type 0 where
  r_type i_type s_type b_type u_type j_type : InstructionFormat

pub record MachineInstruction : Type 0 where
  pub encoded : ℕ
  pub fmt : InstructionFormat

pub record CodeBuffer : Type 0 where
  pub buf : List MachineInstruction

abbrev pub empty_buffer : CodeBuffer
empty_buffer = record { buf = [] }

unfoldable pub cur_offset : CodeBuffer → ℕ
cur_offset c = length c.buf

-- The four bytes of an instruction on a little-endian host.
unfoldable pub instr_bytes : ℕ → List ℕ
instr_bytes w = (w % 2 ^ 8) ∷ (w / 2 ^ 8 % 2 ^ 8) ∷ (w / 2 ^ 16 % 2 ^ 8) ∷ (w / 2 ^ 24 % 2 ^ 8) ∷ []

bytes_of : List MachineInstruction → List ℕ
bytes_of [] = []
bytes_of (i ∷ is) = instr_bytes i.encoded ++ bytes_of is

-- Appends the buffer's bytes to a byte vector.
unfoldable pub dump_to_bytes : CodeBuffer → List ℕ → List ℕ
unfolding bytes_of instr_bytes
dump_to_bytes c bytes = bytes ++ bytes_of c.buf

-- `buf.emplace_back({encoded, fmt})` and `return buf.size() - 1`.
unfoldable pub emplace : CodeBuffer → ℕ → InstructionFormat → CodeBuffer × ℕ
emplace c word format =
    let after = c.buf ++ record { encoded = word; fmt = format } ∷ [] in
    (record { buf = after }, length after - 1)
