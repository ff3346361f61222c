-- ===== src/FileData/Buffers.antt =====
-- `FileData::ReadBuf` and `FileData::WriteBuf` (src/file_data.cc): the buffer vectors that let FUSE
-- move the bytes itself.
use mathlib.Core.List.{append-nil}
use ktable_fs.Base.{
  ℕ, ◌+◌, ◌-◌, ◌≡◌, ◌∙◌, Bool, Option, none, some, inl, inr, true, false, List, [], ◌∷◌, ◌++◌,
  arith, find, Result, ok, ◌>>=◌, leb, u64, if◌then◌else◌, Bool-cases, Option-cases, Result-cases,
}
use ktable_fs.Posix.{FileName, Posix, Laws}
use ktable_fs.FileData.{
  Aggr, LocalFile, FileData, aggr_file, aggr_pos, large_file, local_read, read,
}
use ktable_fs.FileData.Valid.{IsValid, HasSlot, aggr_file-ok}
use ktable_fs.FileData.Large.{large_file-Opened}
use ktable_fs.FileData.Write.{aggr_file-cong, aggr_pos-cong}

-- `fuse_buf`: `flags` says whether FUSE_BUF_IS_FD | FUSE_BUF_FD_SEEK is set, `fd` is `none` for -1.
pub record Buf : Type 0 where
  pub size : ℕ
  pub flags : Bool
  pub fd : Option ℕ
  pub pos : ℕ

-- The one buffer of `FUSE_BUFVEC_INIT(size)`.
unfoldable pub init_buf : ℕ → Buf
init_buf size = record { size = size; flags = false; fd = none; pos = 0 }

-- A buffer that names a range of an open file.
abbrev pub file_buf : ℕ → LocalFile → ℕ → Buf
file_buf size f pos = record { size = size; flags = true; fd = some f.fd; pos = pos }

-- `ReadBuf`: `count` is the length of the list, `idx` and `off` are 0.
unfoldable pub read_buf : FileData → Aggr → ℕ → ℕ → ℕ → Result (List Buf)
read_buf d a ino size off =
    let block = d.aggr_block_size in
    if leb (u64 (size + off)) block
    then (do f ← aggr_file d a.file; ok (file_buf size f (aggr_pos d a off) ∷ []))
    else if leb block off
    then ok (elim (find ino d.large_files) [
      | some g ↦ file_buf size g (off - block) ∷ []
      | none ↦ init_buf 0 ∷ []
    ])
    else do
      f ← aggr_file d a.file
      ok (elim (find ino d.large_files) [
        | some g ↦
            file_buf (block - off) f (aggr_pos d a off) ∷ file_buf (size - (block - off)) g 0 ∷ []
        | none ↦ file_buf (block - off) f (aggr_pos d a off) ∷ []
      ])

module _ (p : Posix) where
  -- `WriteBuf`, which opens the large file on the first write behind the block.
  unfoldable pub write_buf :
      FileData → p.Os → Aggr → ℕ → ℕ → ℕ → Result (List Buf × FileData × p.Os)
  write_buf d os a ino size off =
      let block = d.aggr_block_size in
      if leb (u64 (size + off)) block
      then (do f ← aggr_file d a.file; ok (file_buf size f (aggr_pos d a off) ∷ [], d, os))
      else if leb block off
      then (let (g, d', os') = large_file p d os ino in
          ok (file_buf size g (off - block) ∷ [], d', os'))
      else do
        f ← aggr_file d a.file
        let (g, d', os') = large_file p d os ino
        ok (
          file_buf (block - off) f (aggr_pos d a off) ∷ file_buf (size - (block - off)) g 0 ∷ [],
          d',
          os',
        )

  -- The bytes that the buffers stand for: those of the open files, in order.
  unfoldable pub gather : p.Os → List Buf → List ℕ
  gather os [] = []
  gather os (b ∷ bs) =
      (elim b.fd [ none ↦ [] | some fd ↦ p.pread os fd b.size b.pos ]) ++ gather os bs

module _ (p : Posix) (d : FileData) (os : p.Os) (a : Aggr) (ino size off : ℕ) where
  -- Whenever `Read` returns bytes, `ReadBuf` returns buffers, and they stand for the same bytes.
  pub gather-read_buf :
      {out : List ℕ}
      → read p d os a ino size off ≡ ok out
      → (bufs : List Buf) × (read_buf d a ino size off ≡ ok bufs) × (gather p os bufs ≡ out)
  unfolding read read_buf gather local_read init_buf
  gather-read_buf {out} h = elim (Bool-cases (leb (u64 (size + off)) d.aggr_block_size)) [
    | inl t ↦ elim (Result-cases (aggr_file d a.file)) [
      | inl (f, at) ↦
          (file_buf size f (aggr_pos d a off) ∷ [], rw (t, at), rw append-nil (ground (arith, at)))
      | inr (e, at) ↦ absurd (ground (arith, at))
    ]
    | inr t ↦ elim (Bool-cases (leb d.aggr_block_size off)) [
      | inl u ↦ elim (Option-cases (find ino d.large_files)) [
        | inl e ↦ (init_buf 0 ∷ [], rw (t, u, e), ground arith)
        | inr (g, e) ↦ (
          file_buf size g (off - d.aggr_block_size) ∷ [],
          rw (t, u, e),
          rw append-nil (ground arith),
        )
      ]
      | inr u ↦ elim (Result-cases (aggr_file d a.file)) [
        | inl (f, at) ↦ elim (Option-cases (find ino d.large_files)) [
          | inl e ↦ (
            file_buf (d.aggr_block_size - off) f (aggr_pos d a off) ∷ [],
            rw (t, u, at, e),
            ground (arith, at),
          )
          | inr (g, e) ↦ (
            file_buf (d.aggr_block_size - off) f (aggr_pos d a off)
                ∷ file_buf (size - (d.aggr_block_size - off)) g 0
                ∷ [],
            rw (t, u, at, e),
            rw append-nil (ground (arith, at)),
          )
        ]
        | inr (e, at) ↦ absurd (ground (arith, at))
      ]
    ]
  ]

module _ {p : Posix} {name_of : p.Os → ℕ → Option FileName} (laws : Laws p name_of) {d : FileData}
    {os : p.Os} {a : Aggr} (ino size off : ℕ) (v : IsValid p name_of d os) (s : HasSlot d a) where
  -- In a valid state `WriteBuf` succeeds and leaves a valid state, and the buffers that it names are
  -- the ones that `ReadBuf` then names for the same range: what FUSE writes there it reads there.
  pub read_buf-write_buf :
      (bufs : List Buf) × (d' : FileData) × (os' : p.Os) × (write_buf p d os a ino size off
        ≡ ok (bufs, d', os'))
      × IsValid p name_of d' os'
      × (read_buf d' a ino size off ≡ ok bufs)
  unfolding write_buf read_buf
  read_buf-write_buf =
      let (f, at, named) = aggr_file-ok p name_of v s in
      let l = large_file-Opened laws v ino in
      let d' = (large_file p d os ino).1 in
      let g = (large_file p d os ino).0 in
      let at' = aggr_file-cong d d' l.aggr_files a.file ∙ at in
      let n = d.aggr_block_size - off in
      elim (Bool-cases (leb (u64 (size + off)) d.aggr_block_size)) [
        | inl t ↦ (file_buf size f (aggr_pos d a off) ∷ [], d, os, rw (t, at), v, rw (t, at))
        | inr t ↦ elim (Bool-cases (leb d.aggr_block_size off)) [
          | inl u ↦ (
            file_buf size g (off - d.aggr_block_size) ∷ [],
            d',
            (large_file p d os ino).2,
            rw (t, u),
            l.valid,
            rw (l.found, l.block, t, u),
          )
          | inr u ↦ (
            file_buf n f (aggr_pos d a off) ∷ file_buf (size - n) g 0 ∷ [],
            d',
            (large_file p d os ino).2,
            rw (t, u, at),
            l.valid,
            rw (at', l.found, l.block, t, u, aggr_pos-cong d d' l.block a off),
          )
        ]
      ]
