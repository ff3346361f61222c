-- ===== src/Fs/Sizes.antt =====
-- src/read_write.cc: after a write, the size that the database has of a file is that of its handle.
use ktable_fs.Base.{
  ℕ, ◌+◌, ◌^◌, ◌<◌, ◌≤◌, ◌≡◌, ◌⊎◌, refl, inl, inr, true, some, List, ok, arith, ltb, Bool-cases,
  u64, u32,
}
use ktable_fs.Posix.{Posix}
use ktable_fs.Slice.{Slice}
use ktable_fs.Slice.Order.{equal_iff}
use ktable_fs.FileData.{FileData, write as write_data}
use ktable_fs.FileKey.{to_slice as key_slice}
use ktable_fs.File.{File, from_slice as file_from_slice}
use ktable_fs.File.Format.{IsFile, from_slice-to_slice_file}
use ktable_fs.Batch.{Request}
use ktable_fs.Worker.Map.{Map}
use ktable_fs.Fs.{Fs, Handle, Action, reply, submit, written, write, write_callback}
use ktable_fs.Fs.Names.{perform}

-- The database has of a handle's file the metadata that the handle has.
abbrev pub Stored : Map → Handle → Type 0
Stored f h = (s : Slice) × (f (key_slice h.key) ≡ some s) × (file_from_slice s ≡ ok h.file)

-- If `FileData::Write` writes `res` bytes at `off`, at least one and all below 2^64, and the
-- database has the metadata of the file's handle, then `KTableFS::Write` replies `res`, the size
-- becomes the larger of the old one and `off + res`, and the database has the new metadata.
pub write-Stored :
    (p : Posix) (fs : Fs p) (h : Handle) (bytes : List ℕ) (off now : ℕ) (f : Map) (res : ℕ)
    (d : FileData) (os : p.Os)
    → write_data p fs.file_data fs.os h.file.aggr h.file.st_ino bytes off ≡ ok (res, d, os)
    → 0 < res
    → res + off < 2 ^ 64
    → IsFile h.file
    → Stored f h
    → (act : Action) × (h' : Handle) × (fs' : Fs p) × (write p fs h bytes off now
        ≡ ok (act, h', fs'))
      × ((perform f act).0 ≡ ok (written res))
      × Stored (perform f act).1 h'
      × IsFile h'.file
      × ((h'.file.st_size ≡ h.file.st_size) × (res + off ≤ h.file.st_size)
          ⊎ (h'.file.st_size ≡ res + off) × (h.file.st_size < res + off))
unfolding write write_callback
write-Stored p fs h bytes off now f res d os e pos small good (s0, there, same) =
    elim (Bool-cases (ltb h.file.st_size (u64 (res + off)))) [
      | inl t ↦ grown t
      | inr t ↦ (
        reply (written res),
        h,
        record fs { file_data = d; os = os },
        rw (e, positive, t) refl,
        refl,
        (s0, there, same),
        good,
        inl (refl, ground arith),
      )
    ]
  where
    positive : ltb 0 res ≡ true
    positive = ground arith

    grown :
        ltb h.file.st_size (u64 (res + off)) ≡ true
        → (act : Action) × (h' : Handle) × (fs' : Fs p) × (write p fs h bytes off now
            ≡ ok (act, h', fs'))
          × ((perform f act).0 ≡ ok (written res))
          × Stored (perform f act).1 h'
          × IsFile h'.file
          × ((h'.file.st_size ≡ h.file.st_size) × (res + off ≤ h.file.st_size)
              ⊎ (h'.file.st_size ≡ res + off) × (h.file.st_size < res + off))
    grown t =
        let file : File = record h.file { st_size = u64 (res + off); mtime = u32 now } in
        let h' : Handle = record h { file = file } in
        let fits : IsFile file = record {
          type = good.type;
          st_nlink = good.st_nlink;
          st_mode = good.st_mode;
          aggr_file = good.aggr_file;
          aggr_no = good.aggr_no;
          atime = good.atime;
          mtime = omega arith;
          st_ino = good.st_ino;
          st_size = omega arith;
          no_symlink = good.no_symlink;
        } in
        let (s, stored, _, back) = from_slice-to_slice_file file fits in
        (
          submit (Request.update (key_slice h.key) s) (write_callback res),
          h',
          record fs { file_data = d; os = os },
          rw (e, positive, t, stored) refl,
          rw there refl,
          (s, rw (there, (equal_iff (key_slice h.key) (key_slice h.key)).1 refl) refl, back),
          fits,
          inr (ground arith, ground arith),
        )
