-- ===== src/File.antt =====
-- src/file.h and src/file.cc: the 32 bytes of metadata that the database keeps of a file, and the
-- attributes that the kernel is told.
pub mod Format
mod Blocks
mod Tests
use ktable_fs.Base.{
  ℕ, ◌+◌, ◌-◌, ◌*◌, ◌/◌, ◌%◌, ◌^◌, Bool, true, false, ◌&&◌, not, List, ◌++◌, ◌==◌, if◌then◌else◌,
  length, Result, ok, fault, null_pointer, out_of_range, assert, ◌>>=◌, ◌>>◌, u64,
}
use ktable_fs.Bytes.{le_bytes, read_le}
use ktable_fs.Slice.{Slice}
use ktable_fs.FileData.{Aggr}

-- `File`: `type` has 4 bits, `st_nlink` 8 and `st_mode` 20.
pub record File : Type 0 where
  pub type : ℕ
  pub st_nlink : ℕ
  pub st_mode : ℕ
  pub aggr : Aggr
  pub atime : ℕ
  pub mtime : ℕ
  pub st_ino : ℕ
  pub st_size : ℕ

abbrev pub regular : ℕ
regular = 1

-- The tests of the bits `REGULAR`, `HARDLINK` and `SYMLINK` of a type.
abbrev pub is_regular : ℕ → Bool
is_regular t = t % 2 == 1

abbrev pub is_hardlink : ℕ → Bool
is_hardlink t = t / 2 % 2 == 1

abbrev pub is_symlink : ℕ → Bool
is_symlink t = t / 4 % 2 == 1

-- The 32 bytes of the struct in memory.
unfoldable pub file_bytes : File → Slice
file_bytes f =
    le_bytes 4 (f.type % 16 + 16 * (f.st_nlink % 256) + 4096 * (f.st_mode % 2 ^ 20))
    ++ (le_bytes 2 f.aggr.file
        ++ (le_bytes 2 f.aggr.no
            ++ (le_bytes 4 f.atime
                ++ (le_bytes 4 f.mtime ++ (le_bytes 8 f.st_ino ++ le_bytes 8 f.st_size)))))

unfoldable pub read_file : Slice → Result File
read_file s = do
  (bits, r1) ← read_le 4 s
  (aggr_file, r2) ← read_le 2 r1
  (aggr_no, r3) ← read_le 2 r2
  (atime, r4) ← read_le 4 r3
  (mtime, r5) ← read_le 4 r4
  (ino, r6) ← read_le 8 r5
  (size, r7) ← read_le 8 r6
  ok (record {
    type = bits % 16;
    st_nlink = bits / 16 % 256;
    st_mode = bits / 4096;
    aggr = record { file = aggr_file; no = aggr_no };
    atime = atime;
    mtime = mtime;
    st_ino = ino;
    st_size = size;
  })

-- `FileHandle::ToSlice`: a null pointer for a symbolic link.
unfoldable pub to_slice : File → Result Slice
to_slice f =
    if is_symlink f.type && is_regular f.type then fault null_pointer else ok (file_bytes f)

-- The constructor `FileHandle(const Slice*, FileKey*)`, which looks at the first byte; of a symbolic
-- link it leaves the pointer to the file unset.
unfoldable pub from_slice : Slice → Result File
from_slice s = do
  (type, _) ← read_le 1 s
  if is_regular type && is_symlink type
      then fault null_pointer
      else (do assert (length s == 32); read_file s)

-- `fuse_entry_param`, without the members that are the same for every file.
pub record Entry : Type 0 where
  pub st_atime : ℕ
  pub st_mtime : ℕ
  pub st_ctime : ℕ
  pub st_ino : ℕ
  pub st_mode : ℕ
  pub st_nlink : ℕ
  pub st_size : ℕ
  pub st_blocks : ℕ

-- `FileHandle::FuseEntry` on a file system with blocks of `st_blksize` bytes.
unfoldable pub fuse_entry : ℕ → File → Entry
fuse_entry st_blksize f = record {
  st_atime = f.atime;
  st_mtime = f.mtime;
  st_ctime = f.mtime;
  st_ino = f.st_ino;
  st_mode = f.st_mode;
  st_nlink = f.st_nlink;
  st_size = f.st_size;
  st_blocks = u64 (f.st_size + st_blksize - 1) / st_blksize;
}
