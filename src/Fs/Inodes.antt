-- ===== src/Fs/Inodes.antt =====
-- The inode numbers and the metadata of new files (src/ktablefs.h, src/file.cc).
use ktable_fs.Base.{
  ℕ, ◌+◌, ◌^◌, ◌<◌, ◌≤◌, ◌≡◌, refl, inl, inr, List, [], ◌∷◌, arith, All, All-map, Distinct,
  Bool-cases, u64,
}
use ktable_fs.Posix.{Posix}
use ktable_fs.FileData.{Aggr, FileData, create}
use ktable_fs.File.{regular}
use ktable_fs.File.Format.{IsFile}
use ktable_fs.Fs.{Fs, new_ino, new_file, is_dir}

-- A slot whose numbers fit 16 bits.
abbrev pub IsSlot : Aggr → Type 0
IsSlot a = (a.file < 2 ^ 16) × (a.no < 2 ^ 16)

module _ (p : Posix) where
  create-IsSlot : (d : FileData) (os : p.Os) → All IsSlot d.aggr_free → IsSlot (create p d os).0
  unfolding create
  create-IsSlot d os h = go d.aggr_free refl h
    where
      go : (free : List Aggr) → d.aggr_free ≡ free → All IsSlot free → IsSlot (create p d os).0
      go [] e k = ground (arith, e)
      go (a ∷ rest) e k = rw (create, e) k.0

  -- A new file has metadata that fit their fields.
  pub new_file-IsFile :
      (fs : Fs p) (mode now : ℕ)
      → All IsSlot fs.file_data.aggr_free
      → IsFile (new_file p fs regular mode now).0
  unfolding new_file new_ino
  new_file-IsFile fs mode now h = elim (Bool-cases (is_dir mode)) [
    | inl t ↦
        rw (new_file, t)
          (record {
            type = omega arith;
            st_nlink = omega arith;
            st_mode = omega arith;
            aggr_file = omega arith;
            aggr_no = omega arith;
            atime = omega arith;
            mtime = omega arith;
            st_ino = omega arith;
            st_size = omega arith;
            no_symlink = refl;
          })
    | inr t ↦
        let slot = create-IsSlot fs.file_data fs.os h in
        rw (new_file, t)
          (record {
            type = omega arith;
            st_nlink = omega arith;
            st_mode = omega arith;
            aggr_file = slot.0;
            aggr_no = slot.1;
            atime = omega arith;
            mtime = omega arith;
            st_ino = omega arith;
            st_size = omega arith;
            no_symlink = refl;
          })
  ]

  new_file-ino :
      (fs : Fs p) (mode now : ℕ)
      → fs.cur_ino + 1 < 2 ^ 64
      → ((new_file p fs regular mode now).0.st_ino ≡ fs.cur_ino + 1)
        × ((new_file p fs regular mode now).1.cur_ino ≡ fs.cur_ino + 1)
  unfolding new_file new_ino
  new_file-ino fs mode now h =
      let e : u64 (fs.cur_ino + 1) ≡ fs.cur_ino + 1 = omega arith in
      elim (Bool-cases (is_dir mode)) [
        | inl t ↦ rw (new_file, t) (e, e)
        | inr t ↦ rw (new_file, t) (e, e)
      ]

-- As long as fewer than 2^64 numbers were given out, a new file has an inode number that no
-- earlier file has, and all are again different and at most the last one.
pub new_file-Distinct :
    (p : Posix) (fs : Fs p) (mode now : ℕ) (inos : List ℕ)
    → fs.cur_ino + 1 < 2 ^ 64
    → All (λ i. i ≤ fs.cur_ino) inos
    → Distinct inos
    → let new = new_file p fs regular mode now in
      Distinct (new.0.st_ino ∷ inos) × All (λ i. i ≤ new.1.cur_ino) (new.0.st_ino ∷ inos)
new_file-Distinct p fs mode now inos h low k =
    let (e, e') = new_file-ino p fs mode now h in
    (
      (All-map _ (λ i le same. omega (arith, e)) inos low, k),
      (omega (arith, e, e'), All-map _ (λ i le. omega (arith, e')) inos low),
    )
