-- ===== src/FileSlab/Tests.antt =====
-- Small inputs for lib/kvengine/fileslab.cc: the slabs of 64 bytes, in files of eight and one.
use ktable_fs.Base.{
  ℕ, ◌+◌, ◌≤◌, ◌<◌, ◌≡◌, ◌⊎◌, refl, inl, List, [], ◌∷◌, ◌++◌, ok, fault, thrown, length, take, drop,
  arith, All,
}
use ktable_fs.Slice.{Slice}
use ktable_fs.FileSlab.{
  Slab, SingleFileSlab, SlabName, take_slab, create_file, create, slab_off, record_bytes, parse,
  read_callback, item_size,
}
use ktable_fs.FileSlab.Format.{parse-record_bytes, read_callback-record_bytes}
use ktable_fs.FileSlab.Alloc.{Account, take_slab-Account, slab_off-disjoint, create_fits}

abbrev class : SingleFileSlab
class = record {
  files = 1 ∷ [];
  slab_size = 64;
  slab_per_file = 8;
  cur_file = 1;
  cur_slab = 1;
  free_slab = [];
}

abbrev set : List SlabName
set = record { size = 64; number = 0 } ∷ []

abbrev slab : ℕ → Slab
slab i = record { size = 64; file = 1; index = i }

abbrev key : Slice
key = 1 ∷ 2 ∷ 3 ∷ []

abbrev value : Slice
value = 4 ∷ 5 ∷ []

class-Account : Account class set (slab 1 ∷ slab 0 ∷ [])
class-Account = record {
  size = omega arith;
  fits = omega arith;
  per_file = omega arith;
  file = omega arith;
  files = omega arith;
  index = omega arith;
  distinct = (((λ e. ground arith), tt), (tt, tt));
  issued = (
    (refl, omega arith, inl (refl, omega arith)),
    ((refl, omega arith, inl (refl, omega arith)), tt),
  );
}

take_slab-Account_example :
    Account
      (take_slab class set).1
      (take_slab class set).2
      ((take_slab class set).0 ∷ slab 1 ∷ slab 0 ∷ [])
unfolding take_slab create_file
take_slab-Account_example =
    take_slab-Account class set (slab 1 ∷ slab 0 ∷ []) class-Account (omega arith)

slab_off-disjoint_example :
    (slab_off (slab 0) + 64 ≤ slab_off (slab 1)) ⊎ (slab_off (slab 1) + 64 ≤ slab_off (slab 0))
slab_off-disjoint_example =
    slab_off-disjoint class set (slab 0) (slab 1) (omega arith) (omega arith)
      (refl, omega arith, inl (refl, omega arith)) (refl, omega arith, inl (refl, omega arith)) refl
      (λ e. ground arith)

create_fits_example :
    ((create (class ∷ []) set 11 ≡ fault thrown) × All (λ c. c.slab_size < 11) (class ∷ []))
    ⊎ ((before : List SingleFileSlab) × (c : SingleFileSlab) × (behind : List SingleFileSlab)
        × ((class ∷ []) ≡ before ++ (c ∷ behind))
        × All (λ b. b.slab_size < 11) before
        × (11 ≤ c.slab_size)
        × (create (class ∷ []) set 11
            ≡ ok (
              (take_slab c set).0,
              before ++ ((take_slab c set).1 ∷ behind),
              (take_slab c set).2,
            ))
        × (11 ≤ (take_slab c set).0.size))
create_fits_example = create_fits (class ∷ []) set 11 (record { size = omega arith; free = tt }, tt)

parse-record_bytes_example :
    (length (record_bytes key value) ≡ item_size key value)
    × (parse (record_bytes key value ++ (0 ∷ 0 ∷ [])) ≡ ok (key, value))
parse-record_bytes_example = parse-record_bytes key value (0 ∷ 0 ∷ []) (omega arith) (omega arith)

read_callback-record_bytes_example :
    (size : ℕ) × (off : ℕ) × (read_callback ((9 ∷ []) ++ (record_bytes key value ++ [])) 1
      ≡ ok (size, off))
    × (take size (drop off ((9 ∷ []) ++ (record_bytes key value ++ []))) ≡ value)
read_callback-record_bytes_example =
    read_callback-record_bytes (9 ∷ []) key value [] (omega arith) (omega arith)
