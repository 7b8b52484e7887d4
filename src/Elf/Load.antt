-- ===== src/Elf/Load.antt =====
-- What a loader reads in the file that `ObjectWriter_ELF32::emit` writes.
use sasc.Prelude.{
  ℕ, zero, suc, ◌+◌, ◌-◌, ◌≤◌, ◌*◌, ◌%◌, ◌^◌, ◌/◌, ◌<◌, ◌≡◌, refl, ap, ◌∙◌, List, [], ◌∷◌, ◌++◌,
  length, arith,
}
use sasc.Riscv32.Function.{Object}
use sasc.Prelude.Bits.{bit_and-ones_above}
use sasc.Elf.{alignment, Target, emit, align}

abbrev pub byte_at : List ℕ → ℕ → ℕ
byte_at [] i = 0
byte_at (b ∷ bs) zero = b
byte_at (b ∷ bs) (suc i) = byte_at bs i

abbrev pub drop : ℕ → List ℕ → List ℕ
drop zero bs = bs
drop (suc n) [] = []
drop (suc n) (b ∷ bs) = drop n bs

abbrev pub take : ℕ → List ℕ → List ℕ
take zero bs = []
take (suc n) [] = []
take (suc n) (b ∷ bs) = b ∷ take n bs

-- Little-endian numbers of two and four bytes.
abbrev pub half_at : List ℕ → ℕ → ℕ
half_at file i = byte_at file i + byte_at file (1 + i) * 2 ^ 8

abbrev pub word_at : List ℕ → ℕ → ℕ
word_at file i =
    byte_at file i
    + byte_at file (1 + i) * 2 ^ 8
    + byte_at file (2 + i) * 2 ^ 16
    + byte_at file (3 + i) * 2 ^ 24

-- The address and the bytes of the segment that the program header at `i` describes.
unfoldable pub segment_at : List ℕ → ℕ → ℕ × List ℕ
segment_at file i =
    (word_at file (8 + i), take (word_at file (16 + i)) (drop (word_at file (4 + i)) file))

unfoldable pub segments_at : List ℕ → ℕ → ℕ → ℕ → List (ℕ × List ℕ)
unfolding segment_at
segments_at file size zero i = []
segments_at file size (suc n) i = segment_at file i ∷ segments_at file size n (size + i)

-- The identification, the entry point and the segments of an ELF file, by its header alone.
unfoldable pub load : List ℕ → List ℕ × ℕ × List (ℕ × List ℕ)
unfolding segments_at
load file = (
  take 7 file,
  word_at file 24,
  segments_at file (half_at file 42) (half_at file 44) (word_at file 28),
)

take-length : (bs cs : List ℕ) → take (length bs) (bs ++ cs) ≡ bs
take-length [] cs = refl
take-length (b ∷ bs) cs = ap (◌∷◌ b) (take-length bs cs)

-- A loader finds in the file what was to be loaded: the identification of a little-endian 32-bit ELF
-- file, the entry point 0x10000, and one segment there with the object's code, for code of less than
-- 2 ^ 32 bytes.
pub load-emit :
    (obj : Object) (target : Target)
    → length obj.code < 2 ^ 32
    → load (emit obj target)
      ≡ (0x7f ∷ 0x45 ∷ 0x4c ∷ 0x46 ∷ 1 ∷ 1 ∷ 1 ∷ [], 0x10000, (0x10000, obj.code) ∷ [])
unfolding load emit
load-emit obj target h =
    let size = length obj.code % 2 ^ 32 in
    let read : size % 2 ^ 8
          + size / 2 ^ 8 % 2 ^ 8 * 2 ^ 8
          + size / 2 ^ 16 % 2 ^ 8 * 2 ^ 16
          + size / 2 ^ 24 % 2 ^ 8 * 2 ^ 24
        ≡ length obj.code =
      omega arith in
    ap (λ bs. (0x7f ∷ 0x45 ∷ 0x4c ∷ 0x46 ∷ 1 ∷ 1 ∷ 1 ∷ [], 0x10000, (0x10000, bs) ∷ []))
      (ap (λ n. take n (obj.code ++ [])) read ∙ take-length obj.code [])

-- Where it does not wrap around, the position of a segment is the next multiple of the alignment.
pub align-next :
    (n : ℕ)
    → n + 4095 < 2 ^ 32
    → (n ≤ align n) × (align n < n + alignment) × (align n % alignment ≡ 0)
unfolding align
align-next n h =
    let masked = bit_and-ones_above 12 20 ((n + (alignment - 1)) % 2 ^ 32) in
    (omega (arith, masked), omega (arith, masked), omega (arith, masked))
