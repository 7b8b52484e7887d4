-- ===== src/Elf.antt =====
-- The ELF file: `ObjectWriter_ELF32::emit` of backend/objwriter/elf/ObjectWriter_ELF32.cpp, and the
-- supported targets of backend/Target.cpp. The structures and constants of the ELF format that it names
-- are those of elf.h; a structure is written as its bytes on a little-endian host.
pub mod Load
mod Tests
use sasc.Prelude.{
  ℕ, zero, suc, ◌+◌, ◌-◌, ◌*◌, ◌/◌, ◌%◌, ◌^◌, bit_and, bit_or, Bool, true, false, Option, none,
  some, String, List, [], ◌∷◌, ◌++◌, length, if◌then◌else◌,
}
use sasc.Riscv32.Function.{Object}
use package.text.Mathlib.Text.{◌==◌ as str_eq}

pub data Isa : Type 0 where
  rv32g : Isa

pub data Abi : Type 0 where
  ilp32 ilp32f ilp32d : Abi

pub data Os : Type 0 where
  linux : Os

pub data ObjectFormat : Type 0 where
  elf32 : ObjectFormat

pub record Target : Type 0 where
  pub isa : Isa
  pub abi : Abi
  pub os : Os
  pub format : ObjectFormat

-- The lookup in the map of this name.
unfoldable pub supported_targets : String → Option Target
supported_targets name =
    if str_eq name "linux-riscv32g"
    then some (record { isa = rv32g; abi = ilp32d; os = linux; format = elf32 })
    else none

pub record Segment : Type 0 where
  pub data_ : List ℕ
  pub vaddr_start : ℕ
  pub position_in_file : ℕ
  pub read : Bool
  pub write : Bool
  pub execute : Bool

-- The fields of `Elf32_Ehdr` behind `e_ident`.
pub record Ehdr : Type 0 where
  pub e_type : ℕ
  pub e_machine : ℕ
  pub e_version : ℕ
  pub e_entry : ℕ
  pub e_phoff : ℕ
  pub e_shoff : ℕ
  pub e_flags : ℕ
  pub e_ehsize : ℕ
  pub e_phentsize : ℕ
  pub e_phnum : ℕ
  pub e_shentsize : ℕ
  pub e_shnum : ℕ
  pub e_shstrndx : ℕ

pub record Phdr : Type 0 where
  pub p_type : ℕ
  pub p_offset : ℕ
  pub p_vaddr : ℕ
  pub p_paddr : ℕ
  pub p_filesz : ℕ
  pub p_memsz : ℕ
  pub p_flags : ℕ
  pub p_align : ℕ

abbrev pub half : ℕ → List ℕ
half n = (n % 2 ^ 8) ∷ (n / 2 ^ 8 % 2 ^ 8) ∷ []

abbrev pub word : ℕ → List ℕ
word n = (n % 2 ^ 8) ∷ (n / 2 ^ 8 % 2 ^ 8) ∷ (n / 2 ^ 16 % 2 ^ 8) ∷ (n / 2 ^ 24 % 2 ^ 8) ∷ []

-- The magic number, 32 bits, little-endian, version 1, System V; the rest is zeroed.
abbrev pub e_ident : List ℕ
e_ident = 0x7f ∷ 0x45 ∷ 0x4c ∷ 0x46 ∷ 1 ∷ 1 ∷ 1 ∷ 0 ∷ 0 ∷ 0 ∷ 0 ∷ 0 ∷ 0 ∷ 0 ∷ 0 ∷ 0 ∷ []

unfoldable pub ehdr_bytes : Ehdr → List ℕ
ehdr_bytes h =
    e_ident
    ++ (half h.e_type
        ++ (half h.e_machine
            ++ (word h.e_version
                ++ (word h.e_entry
                    ++ (word h.e_phoff
                        ++ (word h.e_shoff
                            ++ (word h.e_flags
                                ++ (half h.e_ehsize
                                    ++ (half h.e_phentsize
                                        ++ (half h.e_phnum
                                            ++ (half h.e_shentsize
                                                ++ (half h.e_shnum ++ half h.e_shstrndx))))))))))))

unfoldable pub phdr_bytes : Phdr → List ℕ
phdr_bytes h =
    word h.p_type
    ++ (word h.p_offset
        ++ (word h.p_vaddr
            ++ (word h.p_paddr
                ++ (word h.p_filesz ++ (word h.p_memsz ++ (word h.p_flags ++ word h.p_align))))))

abbrev pub alignment : ℕ
alignment = 0x1000

-- `sizeof` of the two structures.
abbrev pub ehdr_size : ℕ
ehdr_size = 52

abbrev pub phdr_size : ℕ
phdr_size = 32

-- `(n + (alignment - 1)) & ~(alignment - 1)`, in 32 bits.
unfoldable pub align : ℕ → ℕ
align n = bit_and ((n + (alignment - 1)) % 2 ^ 32) (2 ^ 32 - alignment)

unfoldable pub float_abi : Abi → ℕ
float_abi ilp32 = 0
float_abi ilp32f = 2
float_abi ilp32d = 4

unfoldable pub code_segment : List ℕ → Segment
code_segment code = record {
  data_ = code;
  vaddr_start = 0x10000;
  position_in_file = 0;
  read = true;
  write = false;
  execute = true;
}

unfoldable pub elf_header : Target → List Segment → Ehdr
unfolding float_abi
elf_header target segments = record {
  e_type = 2;
  e_machine = 0xf3;
  e_version = 1;
  e_entry = 0x10000;
  e_phoff = ehdr_size;
  e_shoff = 0;
  e_flags = bit_or 0 (float_abi target.abi);
  e_ehsize = ehdr_size;
  e_phentsize = phdr_size;
  e_phnum = length segments % 2 ^ 16;
  e_shentsize = 0;
  e_shnum = 0;
  e_shstrndx = 0;
}

unfoldable pub segment_flags : Segment → ℕ
segment_flags seg =
    bit_or (bit_or (if seg.read then 4 else 0) (if seg.write then 2 else 0))
      (if seg.execute then 1 else 0)

unfoldable pub program_header : ℕ → Segment → Phdr
unfolding segment_flags
program_header file_offset seg = record {
  p_type = 1;
  p_offset = file_offset;
  p_vaddr = seg.vaddr_start;
  p_paddr = seg.vaddr_start;
  p_filesz = length seg.data_ % 2 ^ 32;
  p_memsz = length seg.data_ % 2 ^ 32;
  p_flags = segment_flags seg;
  p_align = alignment;
}

-- The loop over the program headers: `final_file_size` is the file's size so far. It gives the headers'
-- bytes and the segments with their positions.
unfoldable pub place_segments : ℕ → List Segment → List ℕ × List Segment
unfolding align program_header phdr_bytes
place_segments final_file_size [] = ([], [])
place_segments final_file_size (seg ∷ segs) =
    let file_offset = align final_file_size in
    let (bytes, placed) = place_segments ((file_offset + length seg.data_) % 2 ^ 32) segs in
    (
      phdr_bytes (program_header file_offset seg) ++ bytes,
      record seg { position_in_file = file_offset } ∷ placed,
    )

unfoldable pub zeros : ℕ → List ℕ
zeros zero = []
zeros (suc n) = 0 ∷ zeros n

-- The loop over the data, where the header and the program headers are `current_file_size` bytes.
unfoldable pub write_segments : ℕ → List Segment → List ℕ
unfolding zeros
write_segments current_file_size [] = []
write_segments current_file_size (seg ∷ segs) =
    zeros ((seg.position_in_file + 2 ^ 64 - current_file_size) % 2 ^ 64)
    ++ (seg.data_ ++ write_segments current_file_size segs)

-- `emit`: the bytes that are written.
unfoldable pub emit : Object → Target → List ℕ
unfolding code_segment elf_header ehdr_bytes place_segments write_segments
emit obj target =
    let segments = code_segment obj.code ∷ [] in
    let headers_size = ehdr_size + phdr_size * length segments in
    let (program_headers, placed) = place_segments headers_size segments in
    ehdr_bytes (elf_header target segments)
    ++ (program_headers ++ write_segments headers_size placed)
