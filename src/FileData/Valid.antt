-- ===== src/FileData/Valid.antt =====
-- The invariant of `FileData` (src/file_data.cc): every file that it holds is open under its own name.
use ktable_fs.Base.{
  ℕ, zero, suc, ◌≤◌, ◌<◌, ◌^◌, ◌≡◌, Option, some, arith, length, get_elem?, find, ok,
  get_elem?_of_lt,
}
use ktable_fs.Posix.{FileName, Posix}
use ktable_fs.FileData.{Aggr, LocalFile, FileData, aggr_file}

module _ (p : Posix) (name_of : p.Os → ℕ → Option FileName) where
  pub record IsValid (d : FileData) (os : p.Os) : Type 0 where
    pub block_small : d.aggr_block_size ≤ 2 ^ 32
    pub count : length d.aggr_files ≡ d.cur_aggr_file
    pub aggr_named :
        (i : ℕ) (f : LocalFile)
        → get_elem? d.aggr_files i ≡ some f
        → name_of os f.fd ≡ some (FileName.aggr (suc i))
    pub large_named :
        (ino : ℕ) (f : LocalFile)
        → find ino d.large_files ≡ some f
        → name_of os f.fd ≡ some (FileName.large ino)

-- A slot that lies in one of the aggregation files.
pub record HasSlot (d : FileData) (a : Aggr) : Type 0 where
  pub positive : 0 < a.file
  pub opened : a.file ≤ length d.aggr_files
  pub small : a.no < 2 ^ 16

module _ (p : Posix) (name_of : p.Os → ℕ → Option FileName) {d : FileData} {os : p.Os}
    (v : IsValid p name_of d os) where
  aggr_file_at :
      (n : ℕ)
      → 0 < n
      → n ≤ length d.aggr_files
      → (f : LocalFile) × (aggr_file d n ≡ ok f) × (name_of os f.fd ≡ some (FileName.aggr n))
  unfolding aggr_file
  aggr_file_at zero h k = absurd (omega arith)
  aggr_file_at (suc n) h k =
      let (f, e) = get_elem?_of_lt d.aggr_files n (omega arith) in
      (f, rw (e, aggr_file), v.aggr_named n f e)

  -- The file of a slot is there, and open under the name of its number.
  pub aggr_file-ok :
      {a : Aggr}
      → HasSlot d a
      → (f : LocalFile) × (aggr_file d a.file ≡ ok f)
        × (name_of os f.fd ≡ some (FileName.aggr a.file))
  aggr_file-ok {a} s = aggr_file_at a.file s.positive s.opened
