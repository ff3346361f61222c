-- ===== src/Fs/Copies/Kept.antt =====
-- Copies to a file (src/read_write.cc) keep the size that the database has that of the handle.
use ktable_fs.Base.{
  ℕ, ◌+◌, ◌%◌, true, ◌^◌, ◌<◌, ◌≤◌, ◌≡◌, ◌⊎◌, refl, ap, ◌∙◌, inl, inr, List, ltb, ok, u32, u64,
  arith, Bool-cases, >>=-ok,
}
use ktable_fs.Posix.{Posix}
use ktable_fs.Slice.Order.{equal_iff}
use ktable_fs.FileData.{FileData}
use ktable_fs.FileData.Buffers.{Buf, read_buf as read_ranges, write_buf as write_ranges}
use ktable_fs.FileKey.{to_slice as key_slice}
use ktable_fs.File.{File}
use ktable_fs.File.Format.{IsFile, from_slice-to_slice_file}
use ktable_fs.Batch.{Request}
use ktable_fs.Worker.Map.{Map}
use ktable_fs.Fs.{Fs, Handle, Action, reply, submit, written, write_callback}
use ktable_fs.Fs.Names.{perform}
use ktable_fs.Fs.Sizes.{Stored}
use ktable_fs.Fs.Copies.{copied, Copied, int_of, bytes, write_buf, copy_file_range}

-- What follows a copy of `n` bytes to `off`, for the handle before and the handle after.
abbrev pub Follows : Map → Handle → ℕ → ℕ → Action → Handle → Type 0
Follows f h n off act h' =
    ((perform f act).0 ≡ ok (written n))
    × Stored (perform f act).1 h'
    × ((h'.file.st_size ≡ h.file.st_size) × (n + off ≤ h.file.st_size)
        ⊎ (h'.file.st_size ≡ n + off) × (h.file.st_size < n + off))

int_of-small : (n : ℕ) → n < 2 ^ 31 → int_of (bytes n) ≡ bytes n
unfolding int_of
int_of-small n h =
    let low : n % 2 ^ 32 ≡ n = omega arith in
    let positive : ltb n (2 ^ 31) ≡ true = ground arith in rw (low, positive) refl

module _ (f : Map) (h : Handle) (n off now : ℕ) (small : n + off < 2 ^ 64) (good : IsFile h.file)
    (kept : Stored f h) where
  copied-Follows :
      (act : Action) × (h' : Handle) × (copied h n off now ≡ ok (act, h'))
      × Follows f h n off act h'
  unfolding copied write_callback
  copied-Follows = elim (Bool-cases (ltb h.file.st_size (u64 (n + off)))) [
    | inl t ↦
        let file : File = record h.file { st_size = u64 (n + off); mtime = u32 now } in
        let h' : Handle = record h { file = file } in
        let fits : IsFile file = record {
          type = good.type;
          st_nlink = good.st_nlink;
          st_mode = good.st_mode;
          aggr_file = good.aggr_file;
          aggr_no = good.aggr_no;
          atime = good.atime;
          mtime = omega arith;
          st_ino = good.st_ino;
          st_size = omega arith;
          no_symlink = good.no_symlink;
        } in
        let (s, stored, _, back) = from_slice-to_slice_file file fits in
        (
          submit (Request.update (key_slice h.key) s) (write_callback n),
          h',
          rw (t, stored) refl,
          (
            rw kept.1 refl,
            (s, rw (kept.1, (equal_iff (key_slice h.key) (key_slice h.key)).1 refl) refl, back),
            inr (ground arith, ground arith),
          ),
        )
    | inr t ↦ (reply (written n), h, rw t refl, (refl, kept, inl (refl, ground arith)))
  ]

  -- If FUSE copies `n` bytes, fewer than 2^31, to the ranges that `WriteBuf` of the file data names,
  -- with `off + n` below 2^64, the metadata of the handle are well-formed, and the database has the
  -- metadata of the handle, then the handler `WriteBuf` replies `n`, the size becomes the larger of the
  -- old one and `off + n`, and the database has the new metadata.
  pub write_buf-Follows :
      (p : Posix) (copy : p.Os → List Buf → Copied × p.Os) (fs : Fs p) (size : ℕ) (bufs : List Buf)
      (d : FileData) (os : p.Os)
      → n < 2 ^ 31
      → write_ranges p fs.file_data fs.os h.file.aggr h.file.st_ino size off ≡ ok (bufs, d, os)
      → (copy os bufs).0 ≡ bytes n
      → (act : Action) × (h' : Handle) × (fs' : Fs p) × (write_buf p copy fs h size off now
          ≡ ok (act, h', fs'))
        × Follows f h n off act h'
  unfolding write_buf
  write_buf-Follows p copy fs size bufs d os int e c =
      let res : int_of (copy os bufs).0 ≡ bytes n = ap int_of c ∙ int_of-small n int in
      let (act, h', done, follows) = copied-Follows in
      (
        act,
        h',
        record fs { file_data = d; os = (copy os bufs).1 },
        >>=-ok _ _ e (rw res (>>=-ok _ _ done refl)),
        follows,
      )

  -- The same of `CopyFileRange`, for any `n`, for the file that is copied to, where the ranges of the other file
  -- can be read.
  pub copy_file_range-Follows :
      (p : Posix) (copy : p.Os → List Buf → List Buf → Copied × p.Os) (fs : Fs p) (h_in : Handle)
      (off_in size : ℕ) (bufs_in bufs : List Buf) (d : FileData) (os : p.Os)
      → read_ranges fs.file_data h_in.file.aggr h_in.file.st_ino size off_in ≡ ok bufs_in
      → write_ranges p fs.file_data fs.os h.file.aggr h.file.st_ino size off ≡ ok (bufs, d, os)
      → (copy os bufs bufs_in).0 ≡ bytes n
      → (act : Action) × (h' : Handle) × (fs' : Fs p) × (copy_file_range p copy fs h_in off_in h off
            size now
          ≡ ok (act, h', fs'))
        × Follows f h n off act h'
  unfolding copy_file_range
  copy_file_range-Follows p copy fs h_in off_in size bufs_in bufs d os r e c =
      let (act, h', done, follows) = copied-Follows in
      (
        act,
        h',
        record fs { file_data = d; os = (copy os bufs bufs_in).1 },
        rw (r, e, c, done) refl,
        follows,
      )
