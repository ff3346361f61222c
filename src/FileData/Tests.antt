-- ===== src/FileData/Tests.antt =====
-- Small inputs for src/file_data.cc over the file system in memory, with blocks of 8 bytes.
use ktable_fs.Base.{
  Option, ℕ, zero, suc, ◌<◌, ◌^◌, ◌≡◌, refl, none, some, inr, List, [], ◌∷◌, arith, find, emplace,
  erase, ok, fault, assert_failed, get_elem?,
}
use ktable_fs.Posix.{FileName}
use ktable_fs.Posix.Memory.{Os, memory, name_of, memory-Laws, open_file, read_at, write_at}
use ktable_fs.FileData.{
  Aggr, LocalFile, FileData, init, aggr_file, aggr_pos, new_local_file, local_read, local_write,
  local_delete, create, delete, creates, large_file, read, write,
}
use ktable_fs.FileData.Valid.{IsValid, HasSlot}
use ktable_fs.FileData.Write.{Written}
use ktable_fs.FileData.Contents.{write-read, write-read_other}
use ktable_fs.FileData.Slots.{Account, delete-Account}
use ktable_fs.FileData.Reuse.{create-repeats}
use ktable_fs.FileData.Sparse.{sparse_read}
use ktable_fs.FileData.Opening.{create-fresh}
use ktable_fs.FileData.Buffers.{Buf, read_buf, write_buf, read_buf-write_buf}

program : Unit {0}
unfolding open_file read_at write_at name_of init aggr_file aggr_pos new_local_file local_read
    local_write local_delete create delete creates large_file read write find emplace erase
program = tt

-- One aggregation file, full of sevens, with two slots in use.
abbrev files : FileData
files = record {
  aggr_files = record { fd = 1; file_name = FileName.aggr 1 } ∷ [];
  large_files = [];
  aggr_block_size = 8;
  cur_aggr_file = 1;
  cur_aggr_index = 1;
  aggr_free = [];
}

abbrev os : Os
os = record { table = FileName.aggr 1 ∷ []; byte = λ n i. some 7 }

abbrev slot : ℕ → Aggr
slot n = record { file = 1; no = n }

abbrev text : List ℕ
text = 1 ∷ 2 ∷ 3 ∷ 4 ∷ 5 ∷ 6 ∷ []

files-IsValid :
    (b : FileName → ℕ → Option ℕ) → IsValid memory name_of files (record os { byte = b })
unfolding name_of find
files-IsValid b = record {
  block_small = omega arith;
  count = refl;
  aggr_named = named;
  large_named = λ ino f e. ground arith;
}
  where
    named :
        (i : ℕ) (f : LocalFile)
        → get_elem? files.aggr_files i ≡ some f
        → name_of (record os { byte = b }) f.fd ≡ some (FileName.aggr (suc i))
    named zero f e = ground arith
    named (suc i) f e = ground arith

slot-HasSlot : (n : ℕ) → n < 2 ^ 16 → HasSlot files (slot n)
slot-HasSlot n h = record { positive = omega arith; opened = omega arith; small = h }

files-Account : Account files (slot 1 ∷ slot 0 ∷ [])
files-Account = record {
  index = omega arith;
  started = λ h. absurd (omega arith);
  distinct = (((λ e. ground arith), tt), (tt, tt));
  issued = (
    (omega arith, omega arith, inr (refl, omega arith)),
    ((omega arith, omega arith, inr (refl, omega arith)), tt),
  );
}

-- Six bytes from the sixth byte on lie on both sides of the end of the block.
write-read_example :
    (d' : FileData) × (os' : Os) × Written memory name_of files os (slot 0) 2 text 5 d' os'
write-read_example =
    write-read memory-Laws 2 text 5 (files-IsValid (λ n i. some 7)) (slot-HasSlot 0 (omega arith))
      (omega arith)

write-read_other_example :
    (d' : FileData) × (os' : Os) × (write memory files os (slot 0) 2 text 5 ≡ ok (6, d', os'))
    × (read memory d' os' (slot 1) 3 2 1 ≡ ok (7 ∷ 7 ∷ []))
unfolding program
write-read_other_example =
    write-read_other memory-Laws 2 3 text 5 2 1 (files-IsValid (λ n i. some 7))
      (slot-HasSlot 0 (omega arith)) (slot-HasSlot 1 (omega arith))
      (record { inodes = omega arith; slots = inr (omega arith) }) (omega arith) (omega arith) refl
      refl

create-fresh_example :
    IsValid memory name_of (create memory files os).1 (create memory files os).2
    × HasSlot (create memory files os).1 (create memory files os).0
    × Account (create memory files os).1 ((create memory files os).0 ∷ slot 1 ∷ slot 0 ∷ [])
create-fresh_example =
    create-fresh memory-Laws (slot 1 ∷ slot 0 ∷ []) (files-IsValid (λ n i. some 7)) files-Account
      (omega arith) (omega arith)

delete-Account_example :
    Account (delete memory files os (slot 0) 2).0 (slot 1 ∷ [])
    × ((delete memory files os (slot 0) 2).0.aggr_free ≡ slot 0 ∷ [])
    × (find 2 (delete memory files os (slot 0) 2).0.large_files ≡ none)
delete-Account_example =
    delete-Account memory files os (slot 1 ∷ slot 0 ∷ []) files-Account (slot 1 ∷ []) (slot 0) [] 2
      refl

abbrev full : FileData
full = record files { cur_aggr_index = 0x10000 }

create-repeats_example :
    let first = create memory full os in
    let later = creates memory 0xffff first.1 first.2 in (create memory later.0 later.1).0 ≡ first.0
create-repeats_example = create-repeats memory full os refl refl

read_buf-write_buf_example :
    (bufs : List Buf) × (d' : FileData) × (os' : Os) × (write_buf memory files os (slot 0) 2 6 5
      ≡ ok (bufs, d', os'))
    × IsValid memory name_of d' os'
    × (read_buf d' (slot 0) 2 6 5 ≡ ok bufs)
read_buf-write_buf_example =
    read_buf-write_buf memory-Laws 2 6 5 (files-IsValid (λ n i. some 7))
      (slot-HasSlot 0 (omega arith))

-- A file that was only written behind its block cannot be read across the end of the block while
-- the aggregation file ends before its slot: the `assert` in `Read` fails.
abbrev no_bytes : Os
no_bytes = record os { byte = λ n i. none }

read_sparse : read memory files no_bytes (slot 1) 3 4 6 ≡ fault assert_failed
unfolding program
read_sparse = refl

sparse_read_example :
    (d' : FileData) × (os' : Os) × (write memory files no_bytes (slot 1) 3 text 8 ≡ ok (6, d', os'))
    × (read memory d' os' (slot 1) 3 4 6 ≡ fault assert_failed)
unfolding program
sparse_read_example =
    sparse_read memory-Laws 3 text 8 4 6 (files-IsValid (λ n i. none))
      (slot-HasSlot 1 (omega arith)) (omega arith) (omega arith) (omega arith) (omega arith)
      (omega arith) (omega arith) (λ fd h. rw h)
