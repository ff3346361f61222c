-- ===== src/FileData/Reuse.antt =====
-- `FileData::Create` (src/file_data.cc) at the end of an aggregation file: `aggr_t::no` has 16 bits.
use ktable_fs.Base.{ℕ, zero, suc, ◌+◌, ◌≤◌, ◌≡◌, refl, [], arith, u16}
use ktable_fs.Posix.{Posix}
use ktable_fs.FileData.{FileData, create, creates}

module _ (p : Posix) where
  -- Without freed slots, and up to the end of the file, `Create` only counts.
  creates-index :
      (n : ℕ) (d : FileData) (os : p.Os)
      → d.aggr_free ≡ []
      → d.cur_aggr_index + n ≤ 0x10000
      → ((creates p n d os).0.aggr_free ≡ [])
        × ((creates p n d os).0.cur_aggr_index ≡ d.cur_aggr_index + n)
        × ((creates p n d os).0.cur_aggr_file ≡ d.cur_aggr_file)
  unfolding creates create
  creates-index zero d os h k = (h, omega arith, refl)
  creates-index (suc n) d os h k =
      ground (arith, creates-index n (record d { cur_aggr_index = d.cur_aggr_index + 1 }) os)

  create_opens :
      (d : FileData) (os : p.Os)
      → d.aggr_free ≡ []
      → d.cur_aggr_index ≡ 0x10000
      → ((create p d os).0 ≡ record { file = u16 (d.cur_aggr_file + 1); no = 0 })
        × ((create p d os).1.aggr_free ≡ [])
        × ((create p d os).1.cur_aggr_index ≡ 0)
        × ((create p d os).1.cur_aggr_file ≡ d.cur_aggr_file + 1)
  unfolding create
  create_opens d os h k = ground arith

  create_last :
      (d : FileData) (os : p.Os)
      → d.aggr_free ≡ []
      → d.cur_aggr_index ≡ 0xffff
      → (create p d os).0 ≡ record { file = u16 d.cur_aggr_file; no = 0 }
  unfolding create
  create_last d os h k = ground arith

  -- When no slot is free and a new aggregation file is due, the slot that `Create` gives out is given
  -- out once more by the 65536th call after it, although nobody has freed it.
  pub create-repeats :
      (d : FileData) (os : p.Os)
      → d.aggr_free ≡ []
      → d.cur_aggr_index ≡ 0x10000
      → let first = create p d os in
        let later = creates p 0xffff first.1 first.2 in (create p later.0 later.1).0 ≡ first.0
  create-repeats d os h k =
      let (slot, free, index, file) = create_opens d os h k in
      let d1 = (create p d os).1 in
      let os1 = (create p d os).2 in
      let (free', index', file') = creates-index 0xffff d1 os1 free (omega arith) in
      let e =
        create_last (creates p 0xffff d1 os1).0 (creates p 0xffff d1 os1).1 free' (omega arith) in
      ground (arith, e)
