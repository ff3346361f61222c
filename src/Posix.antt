-- ===== src/Posix.antt =====
-- The calls of the operating system that src/file_data.cc makes, as an interface: open, close,
-- remove, pread and pwrite. They are not part of the repository, so the model takes them as a
-- parameter. `Laws` is what POSIX documents of them for files that no one else touches.
pub mod Memory
pub mod Disk
use ktable_fs.Base.{
  ℕ, ◌+◌, ◌≤◌, ◌<◌, ◌≡◌, ◌≢◌, ◌⊎◌, Option, some, List, length, ltb, true, get_elem?,
}

-- The names that the program forms: work_dir/aggr_<n> and work_dir/large_<ino>, and the paths of the
-- files of slabs.
pub data FileName : Type 0 where
  aggr : ℕ → FileName
  large : ℕ → FileName
  path : List ℕ → FileName

-- `open_file` is open(name, O_RDWR | O_CREAT, 0644); `pwrite` returns the bytes written as well.
pub record Posix : Type 1 where
  pub Os : Type 0
  pub open_file : Os → FileName → ℕ × Os
  pub close : Os → ℕ → Os
  pub remove : Os → FileName → Os
  pub pread : Os → ℕ → ℕ → ℕ → List ℕ
  pub pwrite : Os → ℕ → List ℕ → ℕ → ℕ × Os

-- `name_of os fd` is the name under which the open descriptor `fd` was opened.
pub record Laws (p : Posix) (name_of : p.Os → ℕ → Option FileName) : Type 1 where
  -- A new descriptor is positive (0 is the standard input) and leaves the others alone.
  pub open-positive : (os : p.Os) (n : FileName) → ltb 0 (p.open_file os n).0 ≡ true
  pub name-open :
      (os : p.Os) (n : FileName) → name_of (p.open_file os n).1 (p.open_file os n).0 ≡ some n
  pub name-open_other :
      (os : p.Os) (n m : FileName) (fd : ℕ)
      → name_of os fd ≡ some m
      → name_of (p.open_file os n).1 fd ≡ some m
  pub pread-open :
      (os : p.Os) (n m : FileName) (fd size off : ℕ)
      → name_of os fd ≡ some m
      → p.pread (p.open_file os n).1 fd size off ≡ p.pread os fd size off
  -- A write to a regular file is complete, and closes no descriptor.
  pub pwrite_complete :
      (os : p.Os) (m : FileName) (fd : ℕ) (d : List ℕ) (off : ℕ)
      → name_of os fd ≡ some m
      → (p.pwrite os fd d off).0 ≡ length d
  pub name-pwrite :
      (os : p.Os) (fd fd' : ℕ) (d : List ℕ) (off : ℕ)
      → name_of (p.pwrite os fd d off).1 fd' ≡ name_of os fd'
  -- A read returns what the last write to the same bytes wrote.
  pub pread-pwrite :
      (os : p.Os) (m : FileName) (fd : ℕ) (d : List ℕ) (off : ℕ)
      → name_of os fd ≡ some m
      → p.pread (p.pwrite os fd d off).1 fd (length d) off ≡ d
  -- A write changes no other file, and in its own file no byte outside its range.
  pub pread-pwrite_name :
      (os : p.Os) (m m' : FileName) (fd fd' : ℕ) (d : List ℕ) (off size off' : ℕ)
      → name_of os fd ≡ some m
      → name_of os fd' ≡ some m'
      → m ≢ m'
      → p.pread (p.pwrite os fd d off).1 fd' size off' ≡ p.pread os fd' size off'
  pub pread-pwrite_disjoint :
      (os : p.Os) (m : FileName) (fd fd' : ℕ) (d : List ℕ) (off size off' : ℕ)
      → name_of os fd ≡ some m
      → name_of os fd' ≡ some m
      → (off' + size ≤ off) ⊎ (off + length d ≤ off')
      → length (p.pread os fd' size off') ≡ size
      → p.pread (p.pwrite os fd d off).1 fd' size off' ≡ p.pread os fd' size off'
  pub length-pread-le : (os : p.Os) (fd size off : ℕ) → length (p.pread os fd size off) ≤ size

-- The same calls byte by byte: `written os m a` is the byte that was last written at `a` to the file
-- `m`, `none` if there was none.
pub record ByteLaws (p : Posix) (name_of : p.Os → ℕ → Option FileName)
    (written : p.Os → FileName → ℕ → Option ℕ) : Type 0 where
  -- A read has the bytes that were written in its range.
  pub pread-written :
      (os : p.Os) (m : FileName) (fd size off i : ℕ) {x : ℕ}
      → name_of os fd ≡ some m
      → i < size
      → written os m (off + i) ≡ some x
      → get_elem? (p.pread os fd size off) i ≡ some x
  pub length-pread-le : (os : p.Os) (fd size off : ℕ) → length (p.pread os fd size off) ≤ size
  -- A write to a regular file is complete, sets the bytes in its range, and no others.
  pub pwrite_complete :
      (os : p.Os) (m : FileName) (fd : ℕ) (d : List ℕ) (off : ℕ)
      → name_of os fd ≡ some m
      → (p.pwrite os fd d off).0 ≡ length d
  pub written-pwrite :
      (os : p.Os) (m : FileName) (fd : ℕ) (d : List ℕ) (off i : ℕ)
      → name_of os fd ≡ some m
      → i < length d
      → written (p.pwrite os fd d off).1 m (off + i) ≡ get_elem? d i
  pub written-pwrite_other :
      (os : p.Os) (m m' : FileName) (fd : ℕ) (d : List ℕ) (off a : ℕ)
      → name_of os fd ≡ some m
      → (m ≢ m') ⊎ ((a < off) ⊎ (off + length d ≤ a))
      → written (p.pwrite os fd d off).1 m' a ≡ written os m' a
  pub name-pwrite :
      (os : p.Os) (fd fd' : ℕ) (d : List ℕ) (off : ℕ)
      → name_of (p.pwrite os fd d off).1 fd' ≡ name_of os fd'
