-- ===== src/Elf/Tests.antt =====
-- `load_elf` of a file of 88 bytes with one segment: 4 bytes from the file, and 4 more in the same page.
use jkos.Base.{ℕ, ◌≡◌, refl, some, List, [], ◌∷◌, ◌++◌, arith}
use jkos.Base.Int.{ℤ, pos, negsuc, ◌-ℤ◌, ◌+ℤ◌}
use jkos.Ramdisk.{RamdiskFile, ramdisk_get_file_node, seek, read, fetch, store}
use jkos.Common.{get_aligned}
use jkos.Kheap.{kheap_finish_init}
use jkos.Elf.{
  Space, Outcome, done, failed, ProgramHeader, byte, load_segment, load_elf, load_segments,
  load_file, read_all, read_to, seek_to, and_then, is_header_valid, elf_header, program_header,
  zero_bytes, clear_part, clear_rest,
}
use jkos.Elf.Confined.{IsUserMemory, Keeps}
use jkos.Elf.Segment.{SegmentLoads, load_segment-SegmentLoads}
use jkos.Elf.Ends.{Ends}
use jkos.Elf.OnRamdisk.{ramdisk_node, Opened, load_elf_ramdisk}

abbrev header : List ℕ
header =
    0x7F ∷ 69 ∷ 76 ∷ 70 ∷ 1 ∷ 1 ∷ 1 ∷ 0 ∷ 0 ∷ 0 ∷ 0 ∷ 0 ∷ 0 ∷ 0 ∷ 0 ∷ 0 ∷ 2 ∷ 0 ∷ 3 ∷ 0 ∷ 1 ∷ 0 ∷ 0
    ∷ 0 ∷ 0 ∷ 0 ∷ 64 ∷ 0 ∷ 52 ∷ 0 ∷ 0 ∷ 0 ∷ 0 ∷ 0 ∷ 0 ∷ 0 ∷ 0 ∷ 0 ∷ 0 ∷ 0 ∷ 52 ∷ 0 ∷ 32 ∷ 0 ∷ 1 ∷ 0
    ∷ 0 ∷ 0 ∷ 0 ∷ 0 ∷ 0 ∷ 0 ∷ []

abbrev program : List ℕ
program =
    1 ∷ 0 ∷ 0 ∷ 0 ∷ 84 ∷ 0 ∷ 0 ∷ 0 ∷ 0 ∷ 0 ∷ 64 ∷ 0 ∷ 0 ∷ 0 ∷ 64 ∷ 0 ∷ 4 ∷ 0 ∷ 0 ∷ 0 ∷ 8 ∷ 0 ∷ 0 ∷ 0
    ∷ 7 ∷ 0 ∷ 0 ∷ 0 ∷ 0 ∷ 16 ∷ 0 ∷ 0 ∷ []

abbrev image : ℕ → ℕ
image = byte (header ++ (program ++ (11 ∷ 12 ∷ 13 ∷ 14 ∷ [])))

abbrev space : Space
space = record { memory = λ a. 5; calls = [] }

abbrev file : RamdiskFile
file = ramdisk_get_file_node 0 88

abbrev segment : ProgramHeader
segment = record { type = 1; offset = 84; vaddr = 0x400000; filesz = 4; memsz = 8 }

abbrev low : ℕ
low = 0x400000

abbrev high : ℕ
high = 0xEFBFFFFF

low-IsUserMemory : IsUserMemory low high
low-IsUserMemory = record {
  positive = ground arith;
  low_page = refl;
  high_page = refl;
  room = ground arith;
}

load_elf_ramdisk_example :
    let (l, h) = kheap_finish_init 1 in
    Keeps Opened l h
      (λ (entry : ℤ). Unit)
      space
      (load_elf (ramdisk_node image) l h (some file) space)
load_elf_ramdisk_example =
    load_elf_ramdisk image 0 88 1 space (ground arith) (ground arith) (ground arith) (ground arith)

load_segment-SegmentLoads_example :
    SegmentLoads
      (ramdisk_node image)
      segment
      4
      (11 ∷ 12 ∷ 13 ∷ 14 ∷ [])
      (record file { cur_offset = pos 88 })
      (load_segment (ramdisk_node image) low high segment (record { file = file; space = space }))
unfolding seek read fetch ◌-ℤ◌ ◌+ℤ◌
load_segment-SegmentLoads_example =
    load_segment-SegmentLoads (ramdisk_node image) low high segment
      (record { file = file; space = space }) (record file { cur_offset = pos 84 })
      (record file { cur_offset = pos 88 }) (11 ∷ 12 ∷ 13 ∷ 14 ∷ []) low-IsUserMemory refl
      (ground arith) (ground arith) (ground arith) (ground arith) refl refl refl

abbrev first_byte : Outcome RamdiskFile ℤ → ℕ
first_byte (failed e q) = 0
first_byte (done a s) = s.space.memory 0x400000

abbrev entry : Outcome RamdiskFile ℤ → ℤ
entry (failed e q) = negsuc 0
entry (done a s) = a

-- The file loads, and its first byte, which is 11 in the file, is cleared.
loaded_entry : entry (load_elf (ramdisk_node image) low high (some file) space) ≡ pos 0x400000
unfolding load_elf load_segments load_segment load_file read_all read_to seek_to and_then
    is_header_valid elf_header program_header clear_rest clear_part zero_bytes seek read fetch store
    get_aligned ◌-ℤ◌ ◌+ℤ◌
loaded_entry = refl

wiped : first_byte (load_elf (ramdisk_node image) low high (some file) space) ≡ 0
unfolding load_elf load_segments load_segment load_file read_all read_to seek_to and_then
    is_header_valid elf_header program_header clear_rest clear_part zero_bytes seek read fetch store
    get_aligned ◌-ℤ◌ ◌+ℤ◌
wiped = refl
