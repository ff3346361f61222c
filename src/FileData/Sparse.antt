-- ===== src/FileData/Sparse.antt =====
-- A file that was first written behind its block (src/file_data.cc).
use ktable_fs.Base.{
  ℕ, ◌+◌, ◌-◌, ◌≤◌, ◌<◌, ◌^◌, ◌≡◌, ◌∙◌, Option, some, true, false, List, [], arith, length, ok,
  fault, assert_failed, leb, u64,
}
use ktable_fs.Posix.{FileName, Posix, Laws}
use ktable_fs.FileData.{Aggr, FileData, aggr_pos, local_read, large_file, read, write}
use ktable_fs.FileData.Valid.{IsValid, HasSlot, aggr_file-ok}
use ktable_fs.FileData.Large.{large_file-Opened}
use ktable_fs.FileData.Write.{local_write-ok, aggr_file-cong, aggr_pos-cong}

module _ {p : Posix} {name_of : p.Os → ℕ → Option FileName} (laws : Laws p name_of) where
  -- While the aggregation file ends before a file's slot, a write behind the block of that file
  -- succeeds, and a read across the end of its block then fails its `assert(res > 0)`.
  pub sparse_read :
      {d : FileData} {os : p.Os} {a : Aggr} (ino : ℕ) (bytes : List ℕ) (off size off' : ℕ)
      → IsValid p name_of d os
      → HasSlot d a
      → d.aggr_block_size ≤ off
      → d.aggr_block_size < length bytes + off
      → length bytes + off < 2 ^ 64
      → off' < d.aggr_block_size
      → d.aggr_block_size < size + off'
      → size + off' < 2 ^ 64
      → ((fd : ℕ)
          → name_of os fd ≡ some (FileName.aggr a.file)
          → p.pread os fd (d.aggr_block_size - off') (aggr_pos d a off') ≡ [])
      → (d' : FileData) × (os' : p.Os) × (write p d os a ino bytes off ≡ ok (length bytes, d', os'))
        × (read p d' os' a ino size off' ≡ fault assert_failed)
  unfolding write read local_read
  sparse_read {d} {os} {a} ino bytes off size off' v s behind some_bytes small before across small'
        hole =
      let (f, at, named) = aggr_file-ok p name_of v s in
      let l = large_file-Opened laws v ino in
      let d' = (large_file p d os ino).1 in
      let os1 = (large_file p d os ino).2 in
      let g = (large_file p d os ino).0 in
      let o = off - d.aggr_block_size in
      let t : leb (u64 (length bytes + off)) d.aggr_block_size ≡ false = ground arith in
      let u : leb d.aggr_block_size off ≡ true = ground arith in
      let t' : leb (u64 (size + off')) d.aggr_block_size ≡ false = ground arith in
      let u' : leb d.aggr_block_size off' ≡ false = ground arith in
      let at' = aggr_file-cong d d' l.aggr_files a.file ∙ at in
      let n = d.aggr_block_size - off' in
      let pos = aggr_pos d a off' in
      let empty : p.pread (p.pwrite os1 g.fd bytes o).1 f.fd n pos ≡ [] =
        laws.pread-pwrite_name os1 _ _ g.fd f.fd bytes o n pos l.named (l.name_kept f.fd _ named)
          (λ e. cc)
        ∙ l.pread_kept f.fd _ n pos named
        ∙ hole f.fd named in
      (
        d',
        (p.pwrite os1 g.fd bytes o).1,
        rw (t, u, local_write-ok laws os1 g _ bytes o l.named),
        rw (at', l.block, t', u', aggr_pos-cong d d' l.block a off', empty),
      )
