-- ===== src/FileData.antt =====
-- src/file_data.h and src/file_data.cc: where the contents of files live. The first block of every
-- file is a slot of a shared aggregation file, what lies behind it a large file of its own.
mod Valid
mod Large
mod Write
mod Contents
mod Slots
mod Reuse
pub mod Buffers
mod Opening
mod Sparse
mod Tests
use ktable_fs.Base.{
  ℕ, zero, suc, ◌+◌, ◌-◌, ◌*◌, none, some, List, [], ◌∷◌, ◌++◌, ltb, leb, ◌==◌, if◌then◌else◌,
  length, get_elem?, take, drop, Result, ok, fault, out_of_range, ◌>>=◌, ◌>>◌, assert, u16, u64,
  find, emplace, erase,
}
use ktable_fs.Posix.{FileName, Posix}

-- `aggr_t`
pub record Aggr : Type 0 where
  pub file : ℕ
  pub no : ℕ

-- `FileData::LocalFile`
pub record LocalFile : Type 0 where
  pub fd : ℕ
  pub file_name : FileName

-- The fields of `FileData`. `large_files` is the `std::map` from inode numbers.
pub record FileData : Type 0 where
  pub aggr_files : List LocalFile
  pub large_files : List (ℕ × LocalFile)
  pub aggr_block_size : ℕ
  pub cur_aggr_file : ℕ
  pub cur_aggr_index : ℕ
  pub aggr_free : List Aggr

-- The constructor `FileData(work_dir, slab_size)`.
unfoldable pub init : ℕ → FileData
init slab_size = record {
  aggr_files = [];
  large_files = [];
  aggr_block_size = slab_size;
  cur_aggr_file = 0;
  cur_aggr_index = 0x10000;
  aggr_free = [];
}

-- `aggr_files_[n - 1]`; outside the vector the behaviour is undefined.
unfoldable pub aggr_file : FileData → ℕ → Result LocalFile
aggr_file d zero = fault out_of_range
aggr_file d (suc n) = elim (get_elem? d.aggr_files n) [ none ↦ fault out_of_range | some f ↦ ok f ]

-- `file->aggr.no * aggr_block_size_ + off`
unfoldable pub aggr_pos : FileData → Aggr → ℕ → ℕ
aggr_pos d a off = u64 (a.no * d.aggr_block_size + off)

module _ (p : Posix) where
  open p use {Os, open_file, close, remove, pread, pwrite}

  -- `LocalFile(file_name)`: `fd` is 0, so that `Open()` opens.
  unfoldable pub new_local_file : Os → FileName → LocalFile × Os
  new_local_file os n = let (fd, os') = open_file os n in (record { fd = fd; file_name = n }, os')

  -- `LocalFile::Close()` and `LocalFile::Delete()`
  unfoldable pub local_close : Os → LocalFile → Os
  local_close os f = if ltb 0 f.fd then close os f.fd else os

  unfoldable pub local_delete : Os → LocalFile → Os
  unfolding local_close
  local_delete os f = remove (local_close os f) f.file_name

  -- `LocalFile::Read` and `LocalFile::Write`. A descriptor is a natural number here, so that the
  -- test `fd < 0` fails and nothing is opened again.
  unfoldable pub local_read : Os → LocalFile → ℕ → ℕ → List ℕ
  local_read os f size off = pread os f.fd size off

  unfoldable pub local_write : Os → LocalFile → List ℕ → ℕ → Result (ℕ × Os)
  local_write os f d off =
      let (res, os') = pwrite os f.fd d off in do assert (res == length d); ok (res, os')

  -- `FileData::Create`. The members of `aggr_t` are `uint16_t`.
  unfoldable pub create : FileData → Os → Aggr × FileData × Os
  unfolding new_local_file
  create d os = elim d.aggr_free [
    | a ∷ rest ↦ (a, record d { aggr_free = rest }, os)
    | [] ↦
        if d.cur_aggr_index == 0x10000
        then (let n = d.cur_aggr_file + 1 in
            let (f, os') = new_local_file os (FileName.aggr n) in
            (
              record { file = u16 n; no = u16 0 },
              record d {
                aggr_files = d.aggr_files ++ (f ∷ []);
                cur_aggr_file = n;
                cur_aggr_index = 0;
              },
              os',
            ))
        else (let i = d.cur_aggr_index + 1 in
            (
              record { file = u16 d.cur_aggr_file; no = u16 i },
              record d { cur_aggr_index = i },
              os,
            ))
  ]

  -- `FileData::Delete(handle)`, of a handle whose file has slot `a` and inode number `ino`.
  unfoldable pub delete : FileData → Os → Aggr → ℕ → FileData × Os
  unfolding local_delete
  delete d os a ino =
      let d' = record d { aggr_free = d.aggr_free ++ (a ∷ []) } in
      elim (find ino d.large_files) [
        | none ↦ (d', os)
        | some f ↦ (record d' { large_files = erase ino d.large_files }, local_delete os f)
      ]

  -- `large_files_.find(ino)` and, where that misses, `large_files_.emplace(ino, name)`.
  unfoldable pub large_file : FileData → Os → ℕ → LocalFile × FileData × Os
  unfolding new_local_file
  large_file d os ino = elim (find ino d.large_files) [
    | some f ↦ (f, d, os)
    | none ↦
        let (f, os') = new_local_file os (FileName.large ino) in
        (f, record d { large_files = emplace ino f d.large_files }, os')
  ]

  -- `FileData::Read`: the bytes put into the buffer; their number is what the method returns.
  unfoldable pub read : FileData → Os → Aggr → ℕ → ℕ → ℕ → Result (List ℕ)
  read d os a ino size off =
      let block = d.aggr_block_size in
      if leb (u64 (size + off)) block
      then (do f ← aggr_file d a.file; ok (local_read os f size (aggr_pos d a off)))
      else if leb block off
      then ok (elim (find ino d.large_files) [
        | some f ↦ local_read os f size (off - block)
        | none ↦ []
      ])
      else do
        f ← aggr_file d a.file
        let front = local_read os f (block - off) (aggr_pos d a off)
        assert (ltb 0 (length front))
        ok (
            front ++ (elim (find ino d.large_files) [
              | some g ↦ local_read os g (size - (block - off)) 0
              | none ↦ []
            ]))

  -- `FileData::Write`: the number of bytes written, and the new state.
  unfoldable pub write : FileData → Os → Aggr → ℕ → List ℕ → ℕ → Result (ℕ × FileData × Os)
  write d os a ino bytes off =
      let block = d.aggr_block_size in
      let size = length bytes in
      if leb (u64 (size + off)) block
      then (do
        f ← aggr_file d a.file
        (res, os1) ← local_write os f bytes (aggr_pos d a off)
        ok (res, d, os1))
      else if leb block off
      then (let (g, d', os1) = large_file d os ino in
          do (res, os2) ← local_write os1 g bytes (off - block); ok (res, d', os2))
      else do
        f ← aggr_file d a.file
        (res, os1) ← local_write os f (take (block - off) bytes) (aggr_pos d a off)
        let (g, d', os2) = large_file d os1 ino
        (res', os3) ← local_write os2 g (drop (block - off) bytes) 0
        assert (res + res' == size)
        ok (res + res', d', os3)

  -- The state after `n` more calls of `Create`.
  unfoldable pub creates : ℕ → FileData → Os → FileData × Os
  creates zero d os = (d, os)
  creates (suc n) d os = let (_, d', os') = create d os in creates n d' os'
