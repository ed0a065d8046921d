-- ===== src/Ramdisk/Tests.antt =====
-- The properties of a file of ten bytes, from the address 100 to 110.
use jkos.Base.{◌≡◌, refl, [], ◌∷◌, arith}
use jkos.Base.Int.{pos}
use jkos.Ramdisk.{RamdiskFile, done, ramdisk_get_file_node, fetch, store, seek, read, write}
use jkos.Ramdisk.Access.{OpenAt, at_offset, write-read, read-Reads}

abbrev file : RamdiskFile
file = record (ramdisk_get_file_node 100 110) { cur_offset = pos 4 }

file-OpenAt : OpenAt 4 file
file-OpenAt = record {
  is_open = refl;
  at = refl;
  in_file = ground arith;
  bounds = ground arith;
  in_memory = ground arith;
}

write-read_example :
    (write (7 ∷ 8 ∷ []) file (λ a. a)
      ≡ done (2, store (λ a. a) 104 (7 ∷ 8 ∷ [])) (at_offset file 6))
    × (seek (pos 4) 0 (at_offset file 6) ≡ done (pos 4) (at_offset file 4))
    × (read 2 (at_offset file 4) (store (λ a. a) 104 (7 ∷ 8 ∷ []))
        ≡ done (7 ∷ 8 ∷ []) (at_offset file 6))
write-read_example =
    write-read 4 (7 ∷ 8 ∷ []) file (λ a. a) file-OpenAt (ground arith) (ground arith)

read-Reads_example : read 9 file (λ a. a) ≡ done (fetch (λ a. a) 104 6) (at_offset file 10)
read-Reads_example = read-Reads 4 9 file (λ a. a) file-OpenAt
