-- ===== src/Fs/Copies.antt =====
-- `ReadBuf`, `WriteBuf` and `CopyFileRange` of src/read_write.cc: handlers that name ranges of open
-- files and leave the copying to FUSE. `copy` is `fuse_buf_copy` from the source to the destination:
-- its result and the new state of the system.
pub mod Kept
use ktable_fs.Base.{
  ℕ, ◌+◌, ◌-◌, ◌%◌, ◌^◌, ◌<◌, ◌≤◌, ◌≡◌, ◌⊎◌, refl, inl, inr, Bool, true, false, Option, none, some,
  List, ltb, if◌then◌else◌, Result, ok, ◌>>=◌, u32, u64, arith, Bool-cases,
}
use ktable_fs.Posix.{Posix}
use ktable_fs.Slice.Order.{equal_iff}
use ktable_fs.Slice.{Slice, equal}
use ktable_fs.FileData.{FileData}
use ktable_fs.FileData.Buffers.{Buf, read_buf as read_ranges, write_buf as write_ranges}
use ktable_fs.FileKey.{to_slice as key_slice}
use ktable_fs.File.{File, to_slice as file_slice, from_slice as file_from_slice}
use ktable_fs.File.Format.{IsFile, from_slice-to_slice_file}
use ktable_fs.Batch.{Request, update}
use ktable_fs.Worker.Map.{Map}
use ktable_fs.Fs.{Fs, Handle, Action, reply, submit, Reply, err, written, write_callback}

-- The end of `WriteBuf` and of `CopyFileRange` once `res` bytes have been copied to `off`.
unfoldable pub copied : Handle → ℕ → ℕ → ℕ → Result (Action × Handle)
copied h res off now =
    if ltb h.file.st_size (u64 (res + off))
    then (do
      let f : File = record h.file { st_size = u64 (res + off); mtime = u32 now }
      s ← file_slice f
      ok (submit (update (key_slice h.key) s) (write_callback res), record h { file = f }))
    else ok (reply (written res), h)

-- What `fuse_buf_copy` returns: a number of bytes, or the negative of an error number.
pub data Copied : Type 0 where
  bytes : ℕ → Copied
  error : ℕ → Copied

-- `int res = fuse_buf_copy(...)`: the low 32 bits of the number, which are negative from 2^31 on. The
-- numbers of errors are small.
unfoldable pub int_of : Copied → Copied
int_of (error e) = error e
int_of (bytes n) =
    if ltb (n % 2 ^ 32) (2 ^ 31) then bytes (n % 2 ^ 32) else error (2 ^ 32 - n % 2 ^ 32)

module _ (p : Posix) where
  -- `KTableFS::ReadBuf`: the ranges that are replied.
  unfoldable pub read_buf : Fs p → Handle → ℕ → ℕ → Result (List Buf)
  read_buf fs h size off = read_ranges fs.file_data h.file.aggr h.file.st_ino size off

  -- `KTableFS::WriteBuf` of `size` bytes, the size of the buffers of the kernel.
  unfoldable pub write_buf :
      (p.Os → List Buf → Copied × p.Os)
      → Fs p
      → Handle
      → ℕ
      → ℕ
      → ℕ
      → Result (Action × Handle × Fs p)
  write_buf copy fs h size off now = do
    (bufs, d, os) ← write_ranges p fs.file_data fs.os h.file.aggr h.file.st_ino size off
    let (copied_bytes, os') = copy os bufs
    let res = int_of copied_bytes
    let fs' : Fs p = record fs { file_data = d; os = os' }
    elim res [
      | error e ↦ ok (reply (err e), h, fs')
      | bytes n ↦ do (act, h') ← copied h n off now; ok (act, h', fs')
    ]

  -- `KTableFS::CopyFileRange`, which keeps the number as a `ssize_t`.
  unfoldable pub copy_file_range :
      (p.Os → List Buf → List Buf → Copied × p.Os)
      → Fs p
      → Handle
      → ℕ
      → Handle
      → ℕ
      → ℕ
      → ℕ
      → Result (Action × Handle × Fs p)
  copy_file_range copy fs h_in off_in h_out off_out size now = do
    bufs_in ← read_ranges fs.file_data h_in.file.aggr h_in.file.st_ino size off_in
    (bufs_out, d, os) ←
        write_ranges p fs.file_data fs.os h_out.file.aggr h_out.file.st_ino size off_out
    let (res, os') = copy os bufs_out bufs_in
    let fs' : Fs p = record fs { file_data = d; os = os' }
    elim res [
      | error e ↦ ok (reply (err e), h_out, fs')
      | bytes n ↦ do (act, h') ← copied h_out n off_out now; ok (act, h', fs')
    ]
