-- ===== src/FileKey.antt =====
-- `FileKey` of src/file_key.h and src/file_key.cc: the key under which the metadata of a file is
-- stored, made of the inode number of its directory, a hash of its name, and its name.
pub mod Codec
mod Tests
use ktable_fs.Base.{
  ℕ, Bool, true, false, ◌&&◌, Option, none, some, List, [], ◌++◌, ltb, ◌==◌, if◌then◌else◌, u32,
  Result, ok, fault, null_pointer, ◌>>=◌,
}
use ktable_fs.Bytes.{le_bytes, read_le, be_bytes, read_be}
use ktable_fs.Hash.{murmur_hash2}
use ktable_fs.Slice.{Slice, less, equal}

-- `name` is `none` for the null pointer.
pub record FileKey : Type 0 where
  pub dir_ino : ℕ
  pub hash : ℕ
  pub name : Option Slice

-- The constructors `FileKey()` and `FileKey(ino, n)`; the member `hash` keeps 32 bits.
unfoldable pub empty_key : FileKey
empty_key = record { dir_ino = 0; hash = 0; name = none }

unfoldable pub make_key : ℕ → Slice → FileKey
unfolding murmur_hash2
make_key ino n = record { dir_ino = ino; hash = u32 (murmur_hash2 n 0); name = some n }

-- The constructor `FileKey(const Slice*)` takes apart what `ToSlice` puts together.
unfoldable pub from_slice : Slice → Result FileKey
from_slice s = do
  (ino, rest) ← read_be 8 s
  (h, rest') ← read_le 4 rest
  ok (record { dir_ino = ino; hash = h; name = some rest' })

unfoldable pub to_slice : FileKey → Slice
to_slice k = be_bytes 8 k.dir_ino ++ (le_bytes 4 k.hash ++ (elim k.name [ none ↦ [] | some n ↦ n ]))

-- `*name`
unfoldable pub deref_name : FileKey → Result Slice
deref_name k = elim k.name [ none ↦ fault null_pointer | some n ↦ ok n ]

-- `operator<` and `operator==`
unfoldable pub key_less : FileKey → FileKey → Result Bool
unfolding less deref_name
key_less a b =
    if ltb a.dir_ino b.dir_ino
    then ok true
    else if a.dir_ino == b.dir_ino
    then if ltb a.hash b.hash
      then ok true
      else if a.hash == b.hash
      then (do n ← deref_name a; m ← deref_name b; ok (less n m))
      else ok false
    else ok false

unfoldable pub key_equal : FileKey → FileKey → Result Bool
unfolding equal deref_name
key_equal a b =
    if (a.dir_ino == b.dir_ino) && (a.hash == b.hash)
    then (do n ← deref_name a; m ← deref_name b; ok (equal n m))
    else ok false
