-- ===== src/FileData/Write.antt =====
-- `FileData::Write` (src/file_data.cc): what a write changes, and that a read sees it.
use mathlib.Core.Path.{subst}
use ktable_fs.Base.{
  ℕ, zero, suc, ◌+◌, ◌-◌, ◌*◌, ◌≤◌, ◌<◌, ◌^◌, ◌≡◌, ◌≢◌, ◌⊎◌, ◌∙◌, refl, sym, Option, some, true,
  false, List, arith, length, find, ok, take, drop, leb, ltb, u64, length-take, length-drop,
  take-append-drop, ◌==◌,
}
use ktable_fs.Posix.{FileName, Posix, Laws}
use ktable_fs.FileData.{
  Aggr, LocalFile, FileData, aggr_file, aggr_pos, local_read, local_write, large_file, read, write,
}
use ktable_fs.FileData.Valid.{IsValid, HasSlot, aggr_file-ok}
use ktable_fs.FileData.Large.{Opened, large_file-Opened}

module _ (p : Posix) (name_of : p.Os → ℕ → Option FileName) where
  -- A change that is confined to one slot and to one large file.
  pub record Confined (d : FileData) (os : p.Os) (a : Aggr) (ino : ℕ) (d' : FileData) (os' : p.Os)
      : Type 0 where
    pub valid : IsValid p name_of d' os'
    pub aggr_files : d'.aggr_files ≡ d.aggr_files
    pub block : d'.aggr_block_size ≡ d.aggr_block_size
    pub others : (j : ℕ) → j ≢ ino → find j d'.large_files ≡ find j d.large_files
    pub name_kept : (fd : ℕ) (m : FileName) → name_of os fd ≡ some m → name_of os' fd ≡ some m
    pub pread_other :
        (fd : ℕ) (m : FileName) (size off : ℕ)
        → name_of os fd ≡ some m
        → m ≢ FileName.aggr a.file
        → m ≢ FileName.large ino
        → p.pread os' fd size off ≡ p.pread os fd size off
    pub pread_slot :
        (fd size off : ℕ)
        → name_of os fd ≡ some (FileName.aggr a.file)
        → (off + size ≤ a.no * d.aggr_block_size)
          ⊎ (a.no * d.aggr_block_size + d.aggr_block_size ≤ off)
        → length (p.pread os fd size off) ≡ size
        → p.pread os' fd size off ≡ p.pread os fd size off

  pub record Written (d : FileData) (os : p.Os) (a : Aggr) (ino : ℕ) (bytes : List ℕ) (off : ℕ)
      (d' : FileData) (os' : p.Os) : Type 0 where
    pub returns : write p d os a ino bytes off ≡ ok (length bytes, d', os')
    pub confined : Confined d os a ino d' os'
    pub reads : read p d' os' a ino (length bytes) off ≡ ok bytes

-- The products stay below 2 ^ 64.
pub aggr_pos-eq :
    (d : FileData) (a : Aggr) (off : ℕ)
    → d.aggr_block_size ≤ 2 ^ 32
    → a.no < 2 ^ 16
    → off ≤ d.aggr_block_size
    → aggr_pos d a off ≡ a.no * d.aggr_block_size + off
unfolding aggr_pos
aggr_pos-eq d a off h k l = grind arith

pub aggr_file-cong :
    (d d' : FileData) → d'.aggr_files ≡ d.aggr_files → (n : ℕ) → aggr_file d' n ≡ aggr_file d n
unfolding aggr_file
aggr_file-cong d d' e zero = refl
aggr_file-cong d d' e (suc n) = rw e

pub aggr_pos-cong :
    (d d' : FileData)
    → d'.aggr_block_size ≡ d.aggr_block_size
    → (a : Aggr) (off : ℕ) → aggr_pos d' a off ≡ aggr_pos d a off
unfolding aggr_pos
aggr_pos-cong d d' e a off = rw e

module _ {p : Posix} {name_of : p.Os → ℕ → Option FileName} (laws : Laws p name_of) where
  pub local_write-ok :
      (os : p.Os) (f : LocalFile) (m : FileName) (bytes : List ℕ) (off : ℕ)
      → name_of os f.fd ≡ some m
      → local_write p os f bytes off ≡ ok (length bytes, (p.pwrite os f.fd bytes off).1)
  unfolding local_write
  local_write-ok os f m bytes off h = ground (arith, laws.pwrite_complete os m f.fd bytes off h)

  -- One write into an open file of a valid state keeps it valid.
  pub pwrite-IsValid :
      (d : FileData) (os : p.Os) (fd : ℕ) (bytes : List ℕ) (off : ℕ)
      → IsValid p name_of d os
      → IsValid p name_of d (p.pwrite os fd bytes off).1
  pwrite-IsValid d os fd bytes off v = record {
    block_small = v.block_small;
    count = v.count;
    aggr_named = λ i f h. laws.name-pwrite os fd f.fd bytes off ∙ v.aggr_named i f h;
    large_named = λ j f h. laws.name-pwrite os fd f.fd bytes off ∙ v.large_named j f h;
  }

  module _ {d : FileData} {os : p.Os} {a : Aggr} (ino : ℕ) (bytes : List ℕ) (off : ℕ)
      (v : IsValid p name_of d os) (s : HasSlot d a) where
    -- A write of `part` into the slot, from `o` on.
    Confined-slot :
        (fd0 : ℕ) (part : List ℕ) (o : ℕ)
        → name_of os fd0 ≡ some (FileName.aggr a.file)
        → length part + o ≤ d.aggr_block_size
        → Confined p name_of d os a ino d (p.pwrite os fd0 part (aggr_pos d a o)).1
    Confined-slot fd0 part o named inside =
        let pos = aggr_pos d a o in
        let pos-eq : pos ≡ a.no * d.aggr_block_size + o =
          aggr_pos-eq d a o v.block_small s.small (omega arith) in
        record {
          valid = pwrite-IsValid d os fd0 part pos v;
          aggr_files = refl;
          block = refl;
          others = λ j h. refl;
          name_kept = λ fd m h. laws.name-pwrite os fd0 fd part pos ∙ h;
          pread_other = λ fd m size o h k l.
              laws.pread-pwrite_name os _ m fd0 fd part pos size o named h (λ e. k (sym e));
          pread_slot = λ fd size o h out full.
              laws.pread-pwrite_disjoint os _ fd0 fd part pos size o named h (ground arith) full;
        }

    -- Inside the block.
    pub write_inside :
        length bytes + off < 2 ^ 64
        → leb (u64 (length bytes + off)) d.aggr_block_size ≡ true
        → (d' : FileData) × (os' : p.Os) × Written p name_of d os a ino bytes off d' os'
    unfolding write read local_read
    write_inside small t =
        let (f, at, named) = aggr_file-ok p name_of v s in
        let pos = aggr_pos d a off in
        (
          d,
          (p.pwrite os f.fd bytes pos).1,
          record {
            returns = rw (t, at, local_write-ok os f _ bytes pos named);
            confined = Confined-slot f.fd bytes off named (ground arith);
            reads = rw (t, at, laws.pread-pwrite os _ f.fd bytes pos named);
          },
        )

    -- A write to the large file on top of a confined change.
    Confined-large :
        {os1 : p.Os}
        → Confined p name_of d os a ino d os1
        → (more : List ℕ) (o : ℕ)
        → Confined p name_of d os a ino
            (large_file p d os1 ino).1
            (p.pwrite (large_file p d os1 ino).2 (large_file p d os1 ino).0.fd more o).1
    Confined-large {os1} c more o = record {
      valid = pwrite-IsValid (large_file p d os1 ino).1 os2 fd' more o l.valid;
      aggr_files = l.aggr_files;
      block = l.block;
      others = l.others;
      name_kept =
          λ fd m h. laws.name-pwrite os2 fd' fd more o ∙ l.name_kept fd m (c.name_kept fd m h);
      pread_other = λ fd m size o' h k1 k2.
          kept fd m size o' (c.name_kept fd m h) k2 ∙ c.pread_other fd m size o' h k1 k2;
      pread_slot = λ fd size o' h out full.
          kept fd _ size o' (c.name_kept fd _ h) (λ e. cc) ∙ c.pread_slot fd size o' h out full;
    }
      where
        l :
            Opened p name_of d os1 ino
              (large_file p d os1 ino).0
              (large_file p d os1 ino).1
              (large_file p d os1 ino).2
        l = large_file-Opened laws c.valid ino

        os2 : p.Os
        os2 = (large_file p d os1 ino).2

        fd' : ℕ
        fd' = (large_file p d os1 ino).0.fd

        kept :
            (fd : ℕ) (m : FileName) (size o' : ℕ)
            → name_of os1 fd ≡ some m
            → m ≢ FileName.large ino
            → p.pread (p.pwrite os2 fd' more o).1 fd size o' ≡ p.pread os1 fd size o'
        kept fd m size o' h k =
            laws.pread-pwrite_name os2 _ m fd' fd more o size o' l.named (l.name_kept fd m h)
              (λ e. k (sym e))
            ∙ l.pread_kept fd m size o' h

    Confined-refl : Confined p name_of d os a ino d os
    Confined-refl = record {
      valid = v;
      aggr_files = refl;
      block = refl;
      others = λ j h. refl;
      name_kept = λ fd m h. h;
      pread_other = λ fd m size o h k l. refl;
      pread_slot = λ fd size o h out full. refl;
    }

    -- Behind the block.
    pub write_behind :
        leb (u64 (length bytes + off)) d.aggr_block_size ≡ false
        → leb d.aggr_block_size off ≡ true
        → (d' : FileData) × (os' : p.Os) × Written p name_of d os a ino bytes off d' os'
    unfolding write read local_read
    write_behind t u =
        let l = large_file-Opened laws v ino in
        let g = (large_file p d os ino).0 in
        let os1 = (large_file p d os ino).2 in
        let o = off - d.aggr_block_size in
        (
          (large_file p d os ino).1,
          (p.pwrite os1 g.fd bytes o).1,
          record {
            returns = rw (t, u, local_write-ok os1 g _ bytes o l.named);
            confined = Confined-large Confined-refl bytes o;
            reads =
                rw (l.block, t, u, l.found, l.block, laws.pread-pwrite os1 _ g.fd bytes o l.named);
          },
        )

    -- Across the end of the block.
    pub write_across :
        length bytes + off < 2 ^ 64
        → leb (u64 (length bytes + off)) d.aggr_block_size ≡ false
        → leb d.aggr_block_size off ≡ false
        → (d' : FileData) × (os' : p.Os) × Written p name_of d os a ino bytes off d' os'
    unfolding write read local_read
    write_across small t u =
        let (f, at, named) = aggr_file-ok p name_of v s in
        let n = d.aggr_block_size - off in
        let pos = aggr_pos d a off in
        let front = take n bytes in
        let back = drop n bytes in
        let front-length : length front ≡ n = ground (arith, length-take n bytes) in
        let back-length : length back ≡ length bytes - n = omega (arith, length-drop n bytes) in
        let os1 = (p.pwrite os f.fd front pos).1 in
        let c = Confined-slot f.fd front off named (ground arith) in
        let l = large_file-Opened laws c.valid ino in
        let g = (large_file p d os1 ino).0 in
        let os2 = (large_file p d os1 ino).2 in
        let d' = (large_file p d os1 ino).1 in
        let os3 = (p.pwrite os2 g.fd back 0).1 in
        let sum : ((length front + length back) == length bytes) ≡ true = ground arith in
        let sum-eq : length front + length back ≡ length bytes = ground arith in
        let front-read : p.pread os3 f.fd n pos ≡ front =
          subst (λ k. p.pread os3 f.fd k pos ≡ front) front-length
            (laws.pread-pwrite_name os2 _ _ g.fd f.fd back 0 (length front) pos l.named
                (l.name_kept f.fd _ (c.name_kept f.fd _ named)) (λ e. cc)
              ∙ l.pread_kept f.fd _ (length front) pos (c.name_kept f.fd _ named)
              ∙ laws.pread-pwrite os _ f.fd front pos named) in
        let nonempty : ltb 0 (length front) ≡ true = ground arith in
        let back-read : p.pread os3 g.fd (length bytes - n) 0 ≡ back =
          subst (λ k. p.pread os3 g.fd k 0 ≡ back) back-length
            (laws.pread-pwrite os2 _ g.fd back 0 l.named) in
        (
          (large_file p d os1 ino).1,
          os3,
          record {
            returns = rw (
              t,
              u,
              at,
              local_write-ok os f _ front pos named,
              local_write-ok os2 g _ back 0 l.named,
              sum,
              sum-eq,
            );
            confined = Confined-large c back 0;
            reads = rw (
              l.block,
              t,
              u,
              aggr_file-cong d d' l.aggr_files a.file,
              at,
              aggr_pos-cong d d' l.block a off,
              front-read,
              nonempty,
              l.found,
              l.block,
              back-read,
              take-append-drop n bytes,
            );
          },
        )
