-- ===== src/File/Format.antt =====
-- The metadata of src/file.h survives being stored.
use native.Mathlib.Nat.{mod-eq_of_lt}
use mathlib.Core.List.{append-nil}
use ktable_fs.Base.{
  ℕ, ◌+◌, ◌*◌, ◌/◌, ◌%◌, ◌^◌, ◌<◌, ◌≡◌, refl, false, ◌&&◌, [], arith, length, ok, length-append, ap,
  sym, ◌∙◌,
}
use ktable_fs.Bytes.{le_bytes, read_le, read_le-le_bytes, length-le_bytes}
use ktable_fs.Slice.{Slice}
use ktable_fs.File.{File, is_regular, is_symlink, file_bytes, read_file, to_slice, from_slice}

-- Each member of the struct has a value that fits it, and the file is not a symbolic link.
pub record IsFile (f : File) : Type 0 where
  pub type : f.type < 2 ^ 4
  pub st_nlink : f.st_nlink < 2 ^ 8
  pub st_mode : f.st_mode < 2 ^ 20
  pub aggr_file : f.aggr.file < 2 ^ 16
  pub aggr_no : f.aggr.no < 2 ^ 16
  pub atime : f.atime < 2 ^ 32
  pub mtime : f.mtime < 2 ^ 32
  pub st_ino : f.st_ino < 2 ^ 64
  pub st_size : f.st_size < 2 ^ 64
  pub no_symlink : (is_symlink f.type && is_regular f.type) ≡ false

bits_back :
    (t l d : ℕ)
    → t < 16
    → l < 256
    → d < 2 ^ 20
    → let bits = (t % 16 + 16 * (l % 256) + 4096 * (d % 2 ^ 20)) % 256 ^ 4 in
      (bits % 16 ≡ t) × (bits / 16 % 256 ≡ l) × (bits / 4096 ≡ d)
bits_back t l d h i j = (omega arith, omega arith, omega arith)

read_le_last : (n v : ℕ) → read_le n (le_bytes n v) ≡ ok (v % 256 ^ n, [])
read_le_last n v = ap (read_le n) (sym (append-nil (le_bytes n v))) ∙ read_le-le_bytes n v []

read_back : (f : File) → IsFile f → read_file (file_bytes f) ≡ ok f
unfolding read_file file_bytes
read_back f h =
    let (type, nlink, mode) = bits_back f.type f.st_nlink f.st_mode h.type h.st_nlink h.st_mode in
    rw
      (
        read_le-le_bytes,
        read_le-le_bytes,
        read_le-le_bytes,
        read_le-le_bytes,
        read_le-le_bytes,
        read_le-le_bytes,
        read_le_last,
        type,
        nlink,
        mode,
        mod-eq_of_lt h.aggr_file,
        mod-eq_of_lt h.aggr_no,
        mod-eq_of_lt h.atime,
        mod-eq_of_lt h.mtime,
        mod-eq_of_lt h.st_ino,
        mod-eq_of_lt h.st_size,
      )
      refl

low_bits :
    (t l d : ℕ)
    → t < 16
    → let byte = (t % 16 + 16 * (l % 256) + 4096 * (d % 2 ^ 20)) % 256 + 0 in
      (byte % 2 ≡ t % 2) × (byte / 4 % 2 ≡ t / 4 % 2)
low_bits t l d h = (omega arith, omega arith)

first_byte :
    (f : File)
    → IsFile f
    → (b : ℕ) × (rest : Slice) × (read_le 1 (file_bytes f) ≡ ok (b, rest))
      × ((is_regular b && is_symlink b) ≡ false)
unfolding file_bytes le_bytes read_le
first_byte f h =
    let (bit_1, bit_3) = low_bits f.type f.st_nlink f.st_mode h.type in
    (_, _, refl, rw (bit_1, bit_3) (ground (arith, h.no_symlink)))

length-file_bytes : (f : File) → length (file_bytes f) ≡ 32
unfolding file_bytes
length-file_bytes f =
    rw
      (
        length-append, length-append, length-append, length-append, length-append, length-append,
        length-le_bytes, length-le_bytes, length-le_bytes, length-le_bytes, length-le_bytes,
        length-le_bytes, length-le_bytes,
      )
      refl

-- Of a file whose metadata fit their fields and which is no symbolic link, `ToSlice` stores 32
-- bytes, from which `FileHandle(const Slice*, FileKey*)` reads the same metadata.
pub from_slice-to_slice_file :
    (f : File)
    → IsFile f
    → (s : Slice) × (to_slice f ≡ ok s) × (length s ≡ 32) × (from_slice s ≡ ok f)
unfolding to_slice from_slice
from_slice-to_slice_file f h =
    let (b, rest, e, plain) = first_byte f h in
    (
      file_bytes f,
      rw h.no_symlink,
      length-file_bytes f,
      rw (e, plain, length-file_bytes f, read_back f h) refl,
    )
