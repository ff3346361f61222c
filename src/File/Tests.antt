-- ===== src/File/Tests.antt =====
-- Small inputs for src/file.cc.
use ktable_fs.Base.{◌+◌, ◌*◌, ◌≤◌, ◌<◌, ◌≡◌, refl, ok, length, arith}
use ktable_fs.Slice.{Slice}
use ktable_fs.File.{File, to_slice, from_slice, fuse_entry}
use ktable_fs.File.Format.{IsFile, from_slice-to_slice_file}
use ktable_fs.File.Blocks.{fuse_entry-blocks}

abbrev file : File
file = record {
  type = 1;
  st_nlink = 1;
  st_mode = 0x81a4;
  aggr = record { file = 1; no = 300 };
  atime = 1600000000;
  mtime = 1600000001;
  st_ino = 77;
  st_size = 5000;
}

file-IsFile : IsFile file
file-IsFile = record {
  type = omega arith;
  st_nlink = omega arith;
  st_mode = omega arith;
  aggr_file = omega arith;
  aggr_no = omega arith;
  atime = omega arith;
  mtime = omega arith;
  st_ino = omega arith;
  st_size = omega arith;
  no_symlink = refl;
}

from_slice-to_slice_file_example :
    (s : Slice) × (to_slice file ≡ ok s) × (length s ≡ 32) × (from_slice s ≡ ok file)
from_slice-to_slice_file_example = from_slice-to_slice_file file file-IsFile

fuse_entry-blocks_example :
    (5000 ≤ (fuse_entry 4096 file).st_blocks * 4096)
    × ((fuse_entry 4096 file).st_blocks * 4096 < 5000 + 4096)
fuse_entry-blocks_example = fuse_entry-blocks 4096 file (omega arith) (omega arith)
