-- ===== src/FileSlab.antt =====
-- lib/kvengine/fileslab.h and lib/kvengine/fileslab.cc: records of one size class share files that are
-- cut into slabs. `Create` of lib/kvengine/local_fileset.cc, which numbers the files, is here as well.
pub mod Format
pub mod Alloc
mod Tests
use Prim.Native.String.{String}
use ktable_fs.Base.{
  ℕ, suc, ◌+◌, ◌*◌, ◌≡◌, Option, none, some, List, [], ◌∷◌, ◌++◌, leb, ◌==◌, if◌then◌else◌, length,
  take, drop, u16, u32, Result, ok, fault, assert, thrown, ◌>>=◌, ◌>>◌, map,
}
use ktable_fs.Bytes.{le_bytes, read_le}
use ktable_fs.Slice.{Slice}

-- `slab_t`: three bit fields of 16, 16 and 32 bits.
pub record Slab : Type 0 where
  pub size : ℕ
  pub file : ℕ
  pub index : ℕ

-- `SingleFileSlab`
pub record SingleFileSlab : Type 0 where
  pub files : List ℕ
  pub slab_size : ℕ
  pub slab_per_file : ℕ
  pub cur_file : ℕ
  pub cur_slab : ℕ
  pub free_slab : List Slab

unfoldable pub new_class : ℕ → ℕ → SingleFileSlab
new_class slab_per_file slab_size = record {
  files = [];
  slab_size = slab_size;
  slab_per_file = slab_per_file;
  cur_file = 0;
  cur_slab = slab_per_file;
  free_slab = [];
}

-- The constructor `FileSlab(directory, slab_per_file, slab_size)`.
unfoldable pub new_classes : ℕ → List ℕ → List SingleFileSlab
new_classes slab_per_file sizes = map (new_class slab_per_file) sizes

-- The name "/slab_<size>_<number>".
pub record SlabName : Type 0 where
  pub size : ℕ
  pub number : ℕ

-- `LocalFileSet::Create`: the files that exist, in order; their numbers start from 1 and have 32 bits.
-- Its assert, that the number is not 0, is in `LocalFileSet.create`; it fails at 2^32 files, and the
-- theorems here have fewer than 2^16.
unfoldable pub create_file : List SlabName → SlabName → ℕ × List SlabName
create_file set n = (u32 (length set + 1), set ++ (n ∷ []))

-- The number of bytes of a record: three `uint16_t`, the key and the value.
unfoldable pub item_size : Slice → Slice → ℕ
item_size key value = length key + length value + 3 * 2

-- The body of the loop in `FileSlab::Create`, for the class that fits.
unfoldable pub take_slab : SingleFileSlab → List SlabName → Slab × SingleFileSlab × List SlabName
take_slab c set = elim c.free_slab [
  | s ∷ rest ↦ (s, record c { free_slab = rest }, set)
  | [] ↦
      if c.cur_slab == c.slab_per_file
      then (let (file, set') =
            create_file set (record { size = c.slab_size; number = length c.files }) in
          (
            record { size = u16 c.slab_size; file = u16 file; index = u32 0 },
            record c { cur_file = file; cur_slab = 0; files = c.files ++ (file ∷ []) },
            set',
          ))
      else (let i = c.cur_slab + 1 in
          (
            record { size = u16 c.slab_size; file = u16 c.cur_file; index = u32 i },
            record c { cur_slab = i },
            set,
          ))
]

-- `FileSlab::Create`: the first class with room for the record; with none it throws.
unfoldable pub create :
    List SingleFileSlab → List SlabName → ℕ → Result (Slab × List SingleFileSlab × List SlabName)
create [] set size = fault thrown
create (c ∷ cs) set size =
    let rest = create cs set size in
    if leb size c.slab_size
    then (let (s, c', set') = take_slab c set in ok (s, c' ∷ cs, set'))
    else (do (s, cs', set') ← rest; ok (s, c ∷ cs', set'))

-- `FileSlab::Delete` on the classes: the slab is put on the free list of its class.
unfoldable pub free_slab : List SingleFileSlab → Slab → Result (List SingleFileSlab)
free_slab [] s = fault thrown
free_slab (c ∷ cs) s =
    let rest = free_slab cs s in
    if c.slab_size == s.size
    then ok (record c { free_slab = c.free_slab ++ (s ∷ []) } ∷ cs)
    else (do cs' ← rest; ok (c ∷ cs'))

-- Where a slab starts in its file.
unfoldable pub slab_off : Slab → ℕ
slab_off s = u32 (s.size * s.index)

abbrev pub valid_flag : ℕ
valid_flag = 1024

-- The bytes that `FileSlab::Write` writes; the sizes are kept in 16 bits.
unfoldable pub record_bytes : Slice → Slice → Slice
record_bytes key value =
    let key_size = u16 (length key) in
    let value_size = u16 (length value) in
    le_bytes 2 valid_flag
    ++ (le_bytes 2 key_size
        ++ (le_bytes 2 value_size ++ (take key_size key ++ take value_size value)))

-- The bytes that `FileSlab::Delete` writes: a `size_t` of 0.
unfoldable pub invalid_bytes : Slice
invalid_bytes = le_bytes 8 0

-- `FileSlab::ReadSync` on the bytes of a slab: the key and the value.
unfoldable pub parse : Slice → Result (Slice × Slice)
parse bytes = do
  (valid, r1) ← read_le 2 bytes
  assert (valid == valid_flag)
  (key_size, r2) ← read_le 2 r1
  (value_size, r3) ← read_le 2 r2
  ok (take key_size r3, take value_size (drop key_size r3))

-- `FileSlabReadCallback`: from a buffer and the offset of a slab in it, the size and the offset of
-- the value.
unfoldable pub read_callback : Slice → ℕ → Result (ℕ × ℕ)
read_callback buf read_off = do
  (valid, r1) ← read_le 2 (drop read_off buf)
  assert (valid == valid_flag)
  (key_size, r2) ← read_le 2 r1
  (value_size, r3) ← read_le 2 r2
  ok (value_size, read_off + 3 * 2 + key_size)
