-- ===== src/Fs.antt =====
-- src/ktablefs.h, src/mknod.cc, src/lookup.cc, src/dir.cc, src/open.cc, src/attr.cc and
-- src/read_write.cc: the handlers of the file system. A handler replies to the kernel, or submits a
-- request to the database with a callback that replies.
mod Tests
mod Names
mod Sizes
mod Inodes
pub mod Copies
pub mod Listing
use ktable_fs.Base.{
  ℕ, ◌+◌, ◌-◌, ◌*◌, ◌/◌, ◌%◌, ◌^◌, Bool, true, false, Option, none, some, List, [], ◌∷◌, ltb, leb,
  ◌==◌, if◌then◌else◌, length, Result, ok, fault, null_pointer, assert_failed, ◌>>=◌, u16, u32, u64,
}
use ktable_fs.Posix.{Posix}
use ktable_fs.FileData.{
  Aggr, FileData, create as create_slot, read as read_data, write as write_data,
}
use ktable_fs.Slice.{Slice}
use ktable_fs.FileKey.{FileKey, make_key, to_slice as key_slice}
use ktable_fs.FileKey.Codec.{dir_key}
use ktable_fs.File.{
  File, regular, is_regular, to_slice as file_slice, from_slice as file_from_slice, Entry,
  fuse_entry,
}
use ktable_fs.Batch.{
  Request, get, put, update, scan, ScanCallback, Code, success, count, neg, Respond,
}

-- What the kernel is told: `entry` and `attr` with the attributes, `written` with a size.
pub data Reply : Type 0 where
  err : ℕ → Reply
  entry : Entry → Reply
  attr : Entry → Reply
  opened : Reply
  data_read : List ℕ → Reply
  written : ℕ → Reply
  unanswered : Reply

-- What a handler does: a reply at once, or a batch of one request and its callback.
pub data Action : Type 0 where
  reply : Reply → Action
  submit : Request → (Respond → Result Reply) → Action

-- The file handle of an open file.
pub record Handle : Type 0 where
  pub file : File
  pub key : FileKey

-- `FUSE_ROOT_ID`, and the bit `S_IFDIR` of a mode.
abbrev pub root_id : ℕ
root_id = 1

abbrev pub s_ifdir : ℕ
s_ifdir = 2 ^ 14

abbrev pub is_dir : ℕ → Bool
is_dir mode = mode / s_ifdir % 2 == 1

-- `mode | S_IFDIR`
unfoldable pub with_dir : ℕ → ℕ
with_dir mode = if is_dir mode then mode else mode + s_ifdir

-- Whether an `off_t` or a `res` below 0 is an error.
unfoldable pub is_error : Code → Option ℕ
is_error success = none
is_error (count n) = none
is_error (neg e) = some e

-- `MknodCallback` and `MkdirCallback`, which reply with the attributes of the new file.
unfoldable pub entry_callback : ℕ → File → Respond → Result Reply
entry_callback blksize f r = elim (is_error r.res) [
  | some e ↦ ok (err e)
  | none ↦ ok (entry (fuse_entry blksize f))
]

-- `LookupCallback`; a file that is not regular gets no reply.
unfoldable pub lookup_callback : ℕ → Respond → Result Reply
lookup_callback blksize r = elim (is_error r.res) [
  | some e ↦ ok (err e)
  | none ↦ elim r.value [
    | none ↦ fault null_pointer
    | some s ↦ do
      f ← file_from_slice s
      if is_regular f.type then ok (entry (fuse_entry blksize f)) else ok unanswered
  ]
]

-- `WriteCallback`
unfoldable pub write_callback : ℕ → Respond → Result Reply
write_callback n r = elim r.res [
  | success ↦ ok (written n)
  | count m ↦ fault assert_failed
  | neg e ↦ fault assert_failed
]

-- `KTableFS::Lookup` where `open_file_` is empty: `IndexInsert` does nothing.
unfoldable pub lookup : ℕ → Handle → Slice → Action
lookup blksize parent name =
    submit (get (key_slice (make_key parent.file.st_ino name))) (lookup_callback blksize)

-- `KTableFS::Open` and `KTableFS::OpenDir`
unfoldable pub open_file : Handle → Action
open_file h = reply opened

-- `KTableFS::GetAttr`
unfoldable pub get_attr : ℕ → Handle → Action
get_attr blksize h = reply (attr (fuse_entry blksize h.file))

-- The scan of `KTableFS::ReadDir_`, whose callback is a parameter.
unfoldable pub read_dir : Handle → ScanCallback → Request
read_dir h f =
    scan 0 (key_slice (dir_key h.file.st_ino)) (key_slice (dir_key (u64 (h.file.st_ino + 1)))) f

module _ (p : Posix) where
  open p use {Os}

  -- The members of `KTableFS` that change, and the state of the operating system.
  pub record Fs : Type 0 where
    pub file_data : FileData
    pub cur_ino : ℕ
    pub os : Os

  -- `KTableFS::NewIno`
  unfoldable pub new_ino : Fs → ℕ × Fs
  new_ino fs = let ino = u64 (fs.cur_ino + 1) in (ino, record fs { cur_ino = ino })

  -- The constructor `FileHandle(type, mode)` at the time `now`.
  unfoldable pub new_file : Fs → ℕ → ℕ → ℕ → File × Fs
  new_file fs type mode now =
      let (ino, fs') = new_ino fs in
      if is_dir mode
      then (let f : File = record {
        type = type;
        st_nlink = 2;
        st_mode = mode % 2 ^ 20;
        aggr = record { file = 0; no = 0 };
        atime = u32 now;
        mtime = u32 now;
        st_ino = ino;
        st_size = 0;
      } in
          (f, fs'))
      else (let (a, d, os) = create_slot p fs'.file_data fs'.os in
          let f : File = record {
            type = type;
            st_nlink = 1;
            st_mode = mode % 2 ^ 20;
            aggr = a;
            atime = u32 now;
            mtime = u32 now;
            st_ino = ino;
            st_size = 0;
          } in
          (f, record fs' { file_data = d; os = os }))

  -- `KTableFS::Mknod`, and `KTableFS::Mkdir`, which adds the bit of a directory to the mode.
  unfoldable pub mknod : ℕ → Fs → Handle → Slice → ℕ → ℕ → Result (Action × Fs)
  mknod blksize fs parent name mode now = do
    let (f, fs') = new_file fs regular mode now
    s ← file_slice f
    ok (
      submit (put (key_slice (make_key parent.file.st_ino name)) s) (entry_callback blksize f),
      fs',
    )

  unfoldable pub mkdir : ℕ → Fs → Handle → Slice → ℕ → ℕ → Result (Action × Fs)
  unfolding mknod
  mkdir blksize fs parent name mode now = mknod blksize fs parent name (with_dir mode) now

  -- `KTableFS::Read`
  unfoldable pub read : Fs → Handle → ℕ → ℕ → Result Action
  read fs h size off = do
    bytes ← read_data p fs.file_data fs.os h.file.aggr h.file.st_ino size off
    ok (reply (data_read bytes))

  -- `KTableFS::Write` at the time `now`: a write past the end of the file stores its new size.
  unfoldable pub write : Fs → Handle → List ℕ → ℕ → ℕ → Result (Action × Handle × Fs)
  write fs h bytes off now = do
    (res, d, os) ← write_data p fs.file_data fs.os h.file.aggr h.file.st_ino bytes off
    let fs' : Fs = record fs { file_data = d; os = os }
    if ltb 0 res
        then (if ltb h.file.st_size (u64 (res + off))
            then (do
              let f : File = record h.file { st_size = u64 (res + off); mtime = u32 now }
              let h' : Handle = record h { file = f }
              s ← file_slice f
              ok (submit (update (key_slice h.key) s) (write_callback res), h', fs'))
            else ok (reply (written res), h, fs'))
        else ok (reply (err 0), h, fs')
