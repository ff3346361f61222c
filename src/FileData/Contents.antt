-- ===== src/FileData/Contents.antt =====
-- The contents of files (src/file_data.cc): a write is read back, and no other file sees it.
use native.Mathlib.Decide.{dec_lt, ℕ_discrete}
use ktable_fs.Base.{
  ℕ, ◌+◌, ◌-◌, ◌*◌, ◌≤◌, ◌<◌, ◌^◌, ◌≡◌, ◌≢◌, ◌⊎◌, ◌∙◌, Option, some, inl, inr, true, List, [], ◌++◌,
  arith, length, find, ok, leb, ltb, u64, Bool-cases, Option-cases, length-append,
}
use ktable_fs.Posix.{FileName, Posix, Laws}
use ktable_fs.FileData.{Aggr, LocalFile, FileData, aggr_pos, local_read, read, write}
use ktable_fs.FileData.Valid.{IsValid, HasSlot, aggr_file-ok}
use ktable_fs.FileData.Write.{
  Confined, Written, write_inside, write_behind, write_across, aggr_file-cong, aggr_pos-cong,
  aggr_pos-eq,
}

-- Another file: another inode number, another slot.
pub record Apart (a : Aggr) (ino : ℕ) (a' : Aggr) (ino' : ℕ) : Type 0 where
  pub inodes : ino' ≢ ino
  pub slots : (a'.file ≢ a.file) ⊎ (a'.no ≢ a.no)

mul_le : {m : ℕ} (n b : ℕ) → n < m → n * b + b ≤ m * b
mul_le n b h = grind arith

-- Slots of one file with different numbers share no byte.
slots_disjoint :
    (n m b : ℕ) (o size : ℕ)
    → n ≢ m
    → o + size ≤ b
    → (n * b + o + size ≤ m * b) ⊎ (m * b + b ≤ n * b + o)
slots_disjoint n m b o size h k = elim (dec_lt n m) [
  | yes l ↦ inl (grind (arith, mul_le {m = m} n b l))
  | no l ↦ inr (grind (arith, mul_le {m = n} m b (omega arith)))
]

module _ {p : Posix} {name_of : p.Os → ℕ → Option FileName} (laws : Laws p name_of) where
  module _ {d : FileData} {os : p.Os} {a : Aggr} (ino : ℕ) (bytes : List ℕ) (off : ℕ)
      (v : IsValid p name_of d os) (s : HasSlot d a) where
    -- In a valid state a write of fewer than 2^64 bytes in all, at any offset, succeeds: it reports
    -- every byte as written, leaves a valid state, in which a read of the same range returns the
    -- bytes, and changes nothing outside the slot and the large file of the written file.
    pub write-read :
        length bytes + off < 2 ^ 64
        → (d' : FileData) × (os' : p.Os) × Written p name_of d os a ino bytes off d' os'
    write-read small = elim (Bool-cases (leb (u64 (length bytes + off)) d.aggr_block_size)) [
      | inl t ↦ write_inside laws ino bytes off v s small t
      | inr t ↦ elim (Bool-cases (leb d.aggr_block_size off)) [
        | inl u ↦ write_behind laws ino bytes off v s t u
        | inr u ↦ write_across laws ino bytes off v s small t u
      ]
    ]

  module _ {d d' : FileData} {os os' : p.Os} {a a' : Aggr} {ino ino' : ℕ}
      (v : IsValid p name_of d os) (c : Confined p name_of d os a ino d' os') (s' : HasSlot d a')
      (apart : Apart a ino a' ino') where
    same_slot :
        (f : LocalFile) (size off : ℕ)
        → name_of os f.fd ≡ some (FileName.aggr a'.file)
        → off + size ≤ d.aggr_block_size
        → length (p.pread os f.fd size (aggr_pos d a' off)) ≡ size
        → p.pread os' f.fd size (aggr_pos d a' off) ≡ p.pread os f.fd size (aggr_pos d a' off)
    same_slot f size off named inside full = elim (ℕ_discrete a'.file a.file) [
      | no k ↦ c.pread_other f.fd _ size _ named (λ e. k (cc)) (λ e. cc)
      | yes k ↦
          let e : aggr_pos d a' off ≡ a'.no * d.aggr_block_size + off =
            aggr_pos-eq d a' off v.block_small s'.small (omega arith) in
          let k' : a'.no ≢ a.no = ground (arith, apart.slots) in
          c.pread_slot f.fd size _ (ground arith)
            (ground (arith, slots_disjoint a'.no a.no d.aggr_block_size off size k' inside)) full
    ]

    same_large :
        (size off : ℕ) (f : LocalFile)
        → find ino' d.large_files ≡ some f
        → p.pread os' f.fd size off ≡ p.pread os f.fd size off
    same_large size off f e =
        c.pread_other f.fd _ size off (v.large_named ino' f e) (λ h. cc) (λ h. apart.inodes (cc))

    -- A complete read of another file is not changed.
    pub read-confined :
        (size off : ℕ) {out : List ℕ}
        → size + off < 2 ^ 64
        → read p d os a' ino' size off ≡ ok out
        → length out ≡ size
        → read p d' os' a' ino' size off ≡ ok out
    unfolding read local_read
    read-confined size off {out} small h full =
        let n = d.aggr_block_size - off in
        let at_pos = aggr_pos d a' off in
        let (f, at, named) = aggr_file-ok p name_of v s' in
        let at' = aggr_file-cong d d' c.aggr_files a'.file ∙ at in
        let pos = aggr_pos-cong d d' c.block a' off in
        let large = c.others ino' apart.inodes in
        elim (Bool-cases (leb (u64 (size + off)) d.aggr_block_size)) [
          | inl t ↦
              rw (at', pos, c.block, t)
                (ground (arith, at, same_slot f size off named (ground arith) (ground (arith, at))))
          | inr t ↦ elim (Bool-cases (leb d.aggr_block_size off)) [
            | inl u ↦ elim (Option-cases (find ino' d.large_files)) [
              | inl e ↦ rw (large, c.block, t, u, e) (ground arith)
              | inr (g, e) ↦
                  rw (large, c.block, t, u, e, c.block)
                    (ground (arith, same_large size (off - d.aggr_block_size) g e))
            ]
            | inr u ↦ elim (Option-cases (find ino' d.large_files)) [
              | inl e ↦ absurd (
                  ground (
                    arith,
                    at,
                    laws.length-pread-le os f.fd n at_pos,
                    length-append {0} (p.pread os f.fd n at_pos) [],
                  ))
              | inr (g, e) ↦
                  let front = p.pread os f.fd n at_pos in
                  let back = p.pread os g.fd (size - n) 0 in
                  let whole : ok (front ++ back) ≡ ok out = ground (arith, at) in
                  let front-full : length front ≡ n = ground (
                    arith,
                    length-append {0} front back,
                    laws.length-pread-le os f.fd n at_pos,
                    laws.length-pread-le os g.fd (size - n) 0,
                  ) in
                  let some-front : ltb 0 (length front) ≡ true = ground arith in
                  rw
                    (
                      at',
                      pos,
                      large,
                      c.block,
                      t,
                      u,
                      e,
                      c.block,
                      same_slot f n off named (ground arith) front-full,
                      same_large (size - n) 0 g e,
                      some-front,
                    )
                    whole
            ]
          ]
        ]

  -- In a valid state, a write to a file with a slot, of fewer than 2^64 bytes in all from the start of
  -- the file, succeeds and leaves every complete read of another file as it was: one with a slot of its
  -- own and another inode number, read up to an end below 2^64.
  pub write-read_other :
      {d : FileData} {os : p.Os} {a a' : Aggr} (ino ino' : ℕ) (bytes : List ℕ) (off : ℕ)
      (size off' : ℕ) {out : List ℕ}
      → IsValid p name_of d os
      → HasSlot d a
      → HasSlot d a'
      → Apart a ino a' ino'
      → length bytes + off < 2 ^ 64
      → size + off' < 2 ^ 64
      → read p d os a' ino' size off' ≡ ok out
      → length out ≡ size
      → (d' : FileData) × (os' : p.Os) × (write p d os a ino bytes off ≡ ok (length bytes, d', os'))
        × (read p d' os' a' ino' size off' ≡ ok out)
  write-read_other ino ino' bytes off size off' v s s' apart small small' h full =
      let (d', os', w) = write-read ino bytes off v s small in
      (d', os', w.returns, read-confined v w.confined s' apart size off' small' h full)
