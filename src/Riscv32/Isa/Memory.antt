-- ===== src/Riscv32/Isa/Memory.antt =====
-- Words in the byte-addressed memory of a hart.
use sasc.Prelude.{ℕ, ◌+◌, ◌/◌, ◌%◌, ◌^◌, ◌≤◌, ◌<◌, ◌≡◌, refl, arith}
use sasc.Riscv32.Isa.Exec.{byte_at, word_at, store_word}

store_word-bytes :
    (mem : ℕ → ℕ) (a v : ℕ)
    → a + 3 < 2 ^ 32
    → (byte_at (store_word mem a v) a 0 ≡ v % 256)
      × (byte_at (store_word mem a v) a 1 ≡ v / 256 % 256)
      × (byte_at (store_word mem a v) a 2 ≡ v / 2 ^ 16 % 256)
      × (byte_at (store_word mem a v) a 3 ≡ v / 2 ^ 24 % 256)
store_word-bytes mem a v h = (ground arith, ground arith, ground arith, ground arith)

pub word_at-store_word :
    (mem : ℕ → ℕ) (a v : ℕ) → a + 3 < 2 ^ 32 → v < 2 ^ 32 → word_at (store_word mem a v) a ≡ v
word_at-store_word mem a v h lt =
    let b = store_word-bytes mem a v h in rw (b.0, b.1, b.2, b.3) (omega arith)

store_word-other :
    (mem : ℕ → ℕ) (a v j : ℕ) → a + 3 < 2 ^ 32 → a + 4 ≤ j → store_word mem a v j ≡ mem j
store_word-other mem a v j h le = ground arith

-- A store leaves the word behind it.
pub word_at-store_word_below :
    (mem : ℕ → ℕ) (a v : ℕ)
    → a + 7 < 2 ^ 32
    → word_at (store_word mem a v) (a + 4) ≡ word_at mem (a + 4)
word_at-store_word_below mem a v h =
    let other = store_word-other mem a v in
    rw
      (
        other ((a + 4 + 0) % 2 ^ 32) (omega arith) (omega arith),
        other ((a + 4 + 1) % 2 ^ 32) (omega arith) (omega arith),
        other ((a + 4 + 2) % 2 ^ 32) (omega arith) (omega arith),
        other ((a + 4 + 3) % 2 ^ 32) (omega arith) (omega arith),
      )
      refl
