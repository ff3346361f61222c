-- ===== src/FileData/Opening.antt =====
-- `FileData::FileData` and `FileData::Create` (src/file_data.cc) keep the invariant of `FileData`.
use ktable_fs.Base.{
  ℕ, ◌+◌, ◌≤◌, ◌<◌, ◌^◌, ◌≡◌, ◌≢◌, refl, Option, inl, inr, List, [], ◌∷◌, ◌++◌, find, arith,
  length-append, get_elem?-append_one, ◌==◌, Bool-cases,
}
use ktable_fs.Posix.{FileName, Posix, Laws}
use ktable_fs.FileData.{Aggr, LocalFile, FileData, init, create, new_local_file}
use ktable_fs.FileData.Valid.{IsValid, HasSlot}
use ktable_fs.FileData.Slots.{Account, create-Account}

module _ {p : Posix} {name_of : p.Os → ℕ → Option FileName} (laws : Laws p name_of) where
  pub init-IsValid :
      (slab_size : ℕ) (os : p.Os) → slab_size ≤ 2 ^ 32 → IsValid p name_of (init slab_size) os
  unfolding init find
  init-IsValid slab_size os h = record {
    block_small = h;
    count = refl;
    aggr_named = λ i f e. ground arith;
    large_named = λ ino f e. ground arith;
  }

  create_in_new_file :
      {d : FileData} {os : p.Os}
      → IsValid p name_of d os
      → IsValid p name_of
          (record d {
            aggr_files =
                d.aggr_files
                ++ ((new_local_file p os (FileName.aggr (d.cur_aggr_file + 1))).0 ∷ []);
            cur_aggr_file = d.cur_aggr_file + 1;
            cur_aggr_index = 0;
          })
          (new_local_file p os (FileName.aggr (d.cur_aggr_file + 1))).1
  unfolding new_local_file
  create_in_new_file {d} {os} v = record {
    block_small = v.block_small;
    count = omega (arith, length-append {0} d.aggr_files (new ∷ []), v.count);
    aggr_named = λ i f e. elim (get_elem?-append_one d.aggr_files new i e) [
      | inl h ↦ laws.name-open_other os name _ f.fd (v.aggr_named i f h)
      | inr h ↦ ground (arith, laws.name-open os name, v.count, h.0, h.1)
    ];
    large_named = λ ino f e. laws.name-open_other os name _ f.fd (v.large_named ino f e);
  }
    where
      name : FileName
      name = FileName.aggr (d.cur_aggr_file + 1)

      new : LocalFile
      new = (new_local_file p os name).0

  pub create-IsValid :
      {d : FileData} {os : p.Os}
      → IsValid p name_of d os
      → IsValid p name_of (create p d os).1 (create p d os).2
  unfolding create
  create-IsValid {d} {os} v = go d.aggr_free refl
    where
      go :
          (free : List Aggr)
          → d.aggr_free ≡ free
          → IsValid p name_of (create p d os).1 (create p d os).2
      go (a ∷ rest) e =
          rw (e, create)
            (record {
              block_small = v.block_small;
              count = v.count;
              aggr_named = v.aggr_named;
              large_named = v.large_named;
            })
      go [] e = elim (Bool-cases (d.cur_aggr_index == 0x10000)) [
        | inl t ↦ rw (e, create, t) (create_in_new_file v)
        | inr t ↦
            rw (e, create, t)
              (record {
                block_small = v.block_small;
                count = v.count;
                aggr_named = v.aggr_named;
                large_named = v.large_named;
              })
      ]

  -- In a valid state whose slots are all different, and which is not about to count past the 16 bits
  -- of `aggr_t`, `Create` leaves a valid state, and gives out a slot that lies in one of its files
  -- and that is neither in use nor free.
  pub create-fresh :
      {d : FileData} {os : p.Os} (live : List Aggr)
      → IsValid p name_of d os
      → Account d live
      → d.cur_aggr_file + 1 < 2 ^ 16
      → d.cur_aggr_index ≢ 0xffff
      → IsValid p name_of (create p d os).1 (create p d os).2
        × HasSlot (create p d os).1 (create p d os).0
        × Account (create p d os).1 ((create p d os).0 ∷ live)
  create-fresh {d} {os} live v k small inner =
      let valid = create-IsValid {d = d} {os = os} v in
      let account = create-Account p d os live k small inner in
      let (positive, low, place) = account.issued.0 in
      let count = valid.count in
      (valid, record { positive = positive; opened = ground arith; small = low }, account)
