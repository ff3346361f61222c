-- ===== src/FileData/Large.antt =====
-- The large file of an inode (src/file_data.cc): found, or opened on the first write behind the block.
use ktable_fs.Base.{
  ℕ, ◌≡◌, ◌≢◌, refl, Option, none, some, inl, inr, arith, find, Option-cases, find-emplace_absent,
}
use ktable_fs.Posix.{FileName, Posix, Laws}
use ktable_fs.FileData.{LocalFile, FileData, large_file, new_local_file}
use ktable_fs.FileData.Valid.{IsValid}

-- What `find` followed by `emplace` leaves: the large file of `ino` is there and open; all other
-- files are as they were.
module _ (p : Posix) (name_of : p.Os → ℕ → Option FileName) where
  pub record Opened (d : FileData) (os : p.Os) (ino : ℕ) (g : LocalFile) (d' : FileData)
      (os' : p.Os) : Type 0 where
    pub valid : IsValid p name_of d' os'
    pub named : name_of os' g.fd ≡ some (FileName.large ino)
    pub found : find ino d'.large_files ≡ some g
    pub aggr_files : d'.aggr_files ≡ d.aggr_files
    pub block : d'.aggr_block_size ≡ d.aggr_block_size
    pub others : (j : ℕ) → j ≢ ino → find j d'.large_files ≡ find j d.large_files
    pub name_kept : (fd : ℕ) (m : FileName) → name_of os fd ≡ some m → name_of os' fd ≡ some m
    pub pread_kept :
        (fd : ℕ) (m : FileName) (size off : ℕ)
        → name_of os fd ≡ some m
        → p.pread os' fd size off ≡ p.pread os fd size off

module _ {p : Posix} {name_of : p.Os → ℕ → Option FileName} (laws : Laws p name_of) {d : FileData}
    {os : p.Os} (v : IsValid p name_of d os) (ino : ℕ) where
  Opened-found :
      {f : LocalFile} → find ino d.large_files ≡ some f → Opened p name_of d os ino f d os
  Opened-found e = record {
    valid = v;
    named = v.large_named ino _ e;
    found = e;
    aggr_files = refl;
    block = refl;
    others = λ j h. refl;
    name_kept = λ fd m h. h;
    pread_kept = λ fd m size off h. refl;
  }

  Opened-new :
      find ino d.large_files ≡ none
      → Opened p name_of d os ino
          (large_file p d os ino).0
          (large_file p d os ino).1
          (large_file p d os ino).2
  unfolding large_file new_local_file
  Opened-new e =
      rw (e, large_file)
        (record {
          valid = record {
            block_small = v.block_small;
            count = v.count;
            aggr_named = λ i f h. laws.name-open_other os _ _ f.fd (v.aggr_named i f h);
            large_named = λ j f h. ground (
              arith,
              find-emplace_absent ino j new d.large_files e,
              laws.name-open os (FileName.large ino),
              laws.name-open_other os (FileName.large ino) (FileName.large j) f.fd,
              v.large_named j f,
            );
          };
          named = laws.name-open os (FileName.large ino);
          found = ground (arith, find-emplace_absent ino ino new d.large_files e);
          aggr_files = refl;
          block = refl;
          others = λ j h. ground (arith, find-emplace_absent ino j new d.large_files e);
          name_kept = λ fd m h. laws.name-open_other os _ m fd h;
          pread_kept = λ fd m size off h. laws.pread-open os _ m fd size off h;
        })
    where
      new : LocalFile
      new = record { fd = (p.open_file os (FileName.large ino)).0; file_name = FileName.large ino }

  pub large_file-Opened :
      Opened p name_of d os ino
        (large_file p d os ino).0
        (large_file p d os ino).1
        (large_file p d os ino).2
  unfolding large_file
  large_file-Opened = elim (Option-cases (find ino d.large_files)) [
    | inl e ↦ Opened-new e
    | inr (f, e) ↦ rw (e, large_file) (Opened-found e)
  ]
