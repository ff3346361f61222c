-- ===== src/Fs/Tests.antt =====
-- Small inputs for the handlers of src/, over the file system in memory.
use ktable_fs.Base.{
  ℕ, ◌+◌, ◌≤◌, ◌<◌, ◌≡◌, ◌⊎◌, refl, none, some, List, [], ◌∷◌, ok, arith, All, Distinct, length,
  map, take, drop, find, emplace, erase,
}
use ktable_fs.Posix.{FileName}
use ktable_fs.Posix.Memory.{memory, name_of, open_file, read_at, write_at}
use ktable_fs.FileData.{FileData, write as write_data, local_write, aggr_file, aggr_pos}
use ktable_fs.Bytes.{le_bytes, read_le}
use ktable_fs.Slice.{Slice}
use ktable_fs.File.{File, regular, Entry, file_bytes, read_file, from_slice}
use ktable_fs.File.Format.{IsFile}
use ktable_fs.Worker.Map.{Map}
use ktable_fs.Fs.{Fs, Handle, Action, entry, written, mknod, lookup, write, new_file}
use ktable_fs.Fs.Inodes.{new_file-Distinct}
use ktable_fs.Fs.Names.{perform, mknod-lookup}
use ktable_fs.Fs.Sizes.{Stored, write-Stored}
use ktable_fs.Fs.Copies.{bytes, write_buf}
use ktable_fs.Fs.Copies.Kept.{Follows, write_buf-Follows}
use ktable_fs.Fs.Listing.{
  Listed, IsListed, Listing, list_dir, bytes_of, entries_from, list_dir-entries,
}
use ktable_fs.FileData.Buffers.{Buf, file_buf, read_buf as read_ranges, write_buf as write_ranges}
use ktable_fs.FileKey.{to_slice as key_slice}
use ktable_fs.FileKey.Codec.{from_slice-to_slice}

program : Unit {0}
unfolding open_file read_at write_at name_of find emplace erase write_data local_write aggr_file
    aggr_pos from_slice read_file file_bytes read_le le_bytes read_ranges write_ranges
program = tt

-- One aggregation file with blocks of 8 bytes and one slot in use.
abbrev files : FileData
files = record {
  aggr_files = record { fd = 1; file_name = FileName.aggr 1 } ∷ [];
  large_files = [];
  aggr_block_size = 8;
  cur_aggr_file = 1;
  cur_aggr_index = 0;
  aggr_free = [];
}

abbrev fs : Fs memory
fs = record {
  file_data = files;
  cur_ino = 2;
  os = record { table = FileName.aggr 1 ∷ []; byte = λ n i. some 7 };
}

abbrev file : File
file = record {
  type = 1;
  st_nlink = 1;
  st_mode = 0x81a4;
  aggr = record { file = 1; no = 0 };
  atime = 5;
  mtime = 5;
  st_ino = 2;
  st_size = 0;
}

file-IsFile : IsFile file
file-IsFile = record {
  type = omega arith;
  st_nlink = omega arith;
  st_mode = omega arith;
  aggr_file = omega arith;
  aggr_no = omega arith;
  atime = omega arith;
  mtime = omega arith;
  st_ino = omega arith;
  st_size = omega arith;
  no_symlink = refl;
}

abbrev root : Handle
root = record {
  file = record file { st_ino = 1 };
  key = record { dir_ino = 1; hash = 0; name = some (47 ∷ []) };
}

abbrev handle : Handle
handle = record { file = file; key = record { dir_ino = 1; hash = 0; name = some (97 ∷ []) } }

abbrev name : Slice
name = 98 ∷ []

abbrev nothing : Map
nothing k = none

-- A map that has the bytes of `file` under every key.
abbrev everywhere : Map
everywhere k = some (file_bytes file)

new_file-Distinct_example :
    Distinct ((new_file memory fs regular 0x81a4 9).0.st_ino ∷ 2 ∷ 1 ∷ [])
    × All
        (λ i. i ≤ (new_file memory fs regular 0x81a4 9).1.cur_ino)
        ((new_file memory fs regular 0x81a4 9).0.st_ino ∷ 2 ∷ 1 ∷ [])
new_file-Distinct_example =
    new_file-Distinct memory fs 0x81a4 9 (2 ∷ 1 ∷ []) (omega arith) (omega arith, (omega arith, tt))
      (((λ e. ground arith), tt), (tt, tt))

mknod-lookup_example :
    (act : Action) × (fs' : Fs memory) × (e : Entry) × (mknod memory 4096 fs root name 0x81a4 9
      ≡ ok (act, fs'))
    × ((perform nothing act).0 ≡ ok (entry e))
    × ((perform (perform nothing act).1 (lookup 4096 root name)).0 ≡ ok (entry e))
mknod-lookup_example = mknod-lookup memory 4096 fs root name 0x81a4 9 nothing tt refl

abbrev three_bytes : List ℕ
three_bytes = 1 ∷ 2 ∷ 3 ∷ []

write-Stored_example :
    (act : Action) × (h' : Handle) × (fs' : Fs memory) × (write memory fs handle three_bytes 2 9
      ≡ ok (act, h', fs'))
    × ((perform everywhere act).0 ≡ ok (written 3))
    × Stored (perform everywhere act).1 h'
    × IsFile h'.file
    × ((h'.file.st_size ≡ 0) × (5 ≤ 0) ⊎ (h'.file.st_size ≡ 5) × (0 < 5))
unfolding program
write-Stored_example =
    write-Stored memory fs handle three_bytes 2 9 everywhere 3 files
      (memory.pwrite fs.os 1 three_bytes 2).1 refl (omega arith) (omega arith) file-IsFile
      (file_bytes file, refl, refl)

-- The range of three bytes from the third on.
abbrev ranges : List Buf
ranges = file_buf 3 (record { fd = 1; file_name = FileName.aggr 1 }) 2 ∷ []

write_buf-Follows_example :
    (act : Action) × (h' : Handle) × (fs' : Fs memory) × (write_buf memory
        (λ os bufs. (bytes 3, os))
        fs
        handle
        3
        2
        9
      ≡ ok (act, h', fs'))
    × Follows everywhere handle 3 2 act h'
unfolding program
write_buf-Follows_example =
    write_buf-Follows everywhere handle 3 2 9 (omega arith) file-IsFile
      (file_bytes file, refl, refl) memory (λ os bufs. (bytes 3, os)) fs 3 ranges files fs.os
      (omega arith) refl refl

abbrev in_dir : Listed
in_dir = record { name = 97 ∷ []; file = file; key = key_slice handle.key; value = file_bytes file }

in_dir-IsListed : IsListed in_dir
unfolding program
in_dir-IsListed = (
  (
    handle.key,
    from_slice-to_slice handle.key (97 ∷ [])
        (record { ino = omega arith; hash = omega arith; name = refl }),
    refl,
  ),
  refl,
)

-- Two records and a buffer with room for one entry, from the first on.
list_dir-entries_example :
    (n : ℕ) × (l : Listing) × (list_dir
        (λ name. 24 + length name)
        4096
        30
        1
        (record { entries = []; buf_size = 0; cur_off = 0 })
        (map bytes_of (in_dir ∷ in_dir ∷ in_dir ∷ []))
      ≡ ok l)
    × (l.entries ≡ entries_from 4096 1 (take n (in_dir ∷ in_dir ∷ [])))
    × ((n ≡ 2)
        ⊎ ((s : Listed) × (rest : List Listed) × (drop n (in_dir ∷ in_dir ∷ []) ≡ s ∷ rest)
            × (30 < l.buf_size + (24 + length s.name))))
list_dir-entries_example =
    list_dir-entries (λ name. 24 + length name) 4096 30 1 (in_dir ∷ in_dir ∷ in_dir ∷ [])
      (omega arith) (in_dir-IsListed, (in_dir-IsListed, (in_dir-IsListed, tt)))
