-- ===== src/FileSlab/Alloc.antt =====
-- `FileSlab::Create` and `FileSlab::Delete` (lib/kvengine/fileslab.cc): which slab a record gets.
use native.Mathlib.Decide.{dec_lt}
use native.Mathlib.Nat.{mod-eq_of_lt}
use ktable_fs.Base.{
  ℕ, ◌+◌, ◌*◌, ◌≤◌, ◌<◌, ◌^◌, ◌≡◌, ◌≢◌, ◌⊎◌, refl, ap, inl, inr, List, [], ◌∷◌, ◌++◌, arith, All,
  Distinct, All-map, All-middle, Distinct-middle, Bool-cases, ◌==◌, leb, length, length-append, ok,
  fault, thrown,
}
use ktable_fs.FileSlab.{Slab, SingleFileSlab, SlabName, create_file, take_slab, create, slab_off}

-- A slab that a class has given out at some time.
abbrev pub Issued : SingleFileSlab → List SlabName → Slab → Type 0
Issued c set s =
    (s.size ≡ c.slab_size)
    × (s.index ≤ c.slab_per_file)
    × (((s.file ≡ c.cur_file) × (s.index ≤ c.cur_slab))
        ⊎ ((s.file ≢ c.cur_file) × (s.file ≤ length set)))

-- The slabs in use, `live`, and the free slabs of a class are all different. The numbers fit the bit
-- fields of `slab_t` and a file of the class is at most 2^32 bytes long.
pub record Account (c : SingleFileSlab) (set : List SlabName) (live : List Slab) : Type 0 where
  pub size : c.slab_size < 2 ^ 16
  pub fits : c.slab_size * (c.slab_per_file + 1) ≤ 2 ^ 32
  pub per_file : c.slab_per_file < 2 ^ 32
  pub file : c.cur_file ≤ length set
  pub files : length set + 1 < 2 ^ 16
  pub index : c.cur_slab ≤ c.slab_per_file
  pub distinct : Distinct (live ++ c.free_slab)
  pub issued : All (Issued c set) (live ++ c.free_slab)

module _ (c : SingleFileSlab) (set : List SlabName) (live : List Slab)
    (k : Account c set live) where
  take_freed :
      (s : Slab) (rest : List Slab)
      → c.free_slab ≡ s ∷ rest
      → Account (take_slab c set).1 (take_slab c set).2 ((take_slab c set).0 ∷ live)
  unfolding take_slab
  take_freed s rest e =
      rw (e, take_slab)
        (record {
          size = k.size;
          fits = k.fits;
          per_file = k.per_file;
          file = k.file;
          files = k.files;
          index = k.index;
          distinct = Distinct-middle live s rest (rw e at k.distinct);
          issued = All-middle (Issued c set) live s rest (rw e at k.issued);
        })

  take_new :
      c.free_slab ≡ []
      → length (take_slab c set).2 + 1 < 2 ^ 16
      → Account (take_slab c set).1 (take_slab c set).2 ((take_slab c set).0 ∷ live)
  unfolding take_slab create_file
  take_new e room = elim (Bool-cases (c.cur_slab == c.slab_per_file)) [
    | inl t ↦
        let name : SlabName = record { size = c.slab_size; number = length c.files } in
        let longer = length-append {0} set (name ∷ []) in
        rw (e, take_slab, t)
          (record {
            size = k.size;
            fits = k.fits;
            per_file = k.per_file;
            file = omega (arith, longer);
            files = ground (arith, longer);
            index = omega arith;
            distinct = (All-map (Issued c set) (λ b h d. ground arith) _ k.issued, k.distinct);
            issued = (
              ground (arith, longer),
              All-map (Issued c set) (λ b h. ground (arith, longer)) _ k.issued,
            );
          })
    | inr t ↦
        rw (e, take_slab, t)
          (record {
            size = k.size;
            fits = k.fits;
            per_file = k.per_file;
            file = k.file;
            files = k.files;
            index = ground arith;
            distinct = (All-map (Issued c set) (λ b h d. ground arith) _ k.issued, k.distinct);
            issued = (ground arith, All-map (Issued c set) (λ b h. ground arith) _ k.issued);
          })
  ]

  -- While the numbers of files fit 16 bits, a class whose slabs are all different gives out a slab
  -- that is neither in use nor free, and its slabs are again all different.
  pub take_slab-Account :
      length (take_slab c set).2 + 1 < 2 ^ 16
      → Account (take_slab c set).1 (take_slab c set).2 ((take_slab c set).0 ∷ live)
  unfolding take_slab
  take_slab-Account room = go c.free_slab refl
    where
      go :
          (free : List Slab)
          → c.free_slab ≡ free
          → Account (take_slab c set).1 (take_slab c set).2 ((take_slab c set).0 ∷ live)
      go [] e = take_new e room
      go (s ∷ rest) e = take_freed s rest e

-- In a class of slabs of at least one byte, whose files are at most 2^32 bytes long, two slabs of
-- one file that are not the same share no byte of it.
pub slab_off-disjoint :
    (c : SingleFileSlab) (set : List SlabName) (s t : Slab)
    → c.slab_size * (c.slab_per_file + 1) ≤ 2 ^ 32
    → 0 < c.slab_size
    → Issued c set s
    → Issued c set t
    → s.file ≡ t.file
    → s ≢ t
    → (slab_off s + c.slab_size ≤ slab_off t) ⊎ (slab_off t + c.slab_size ≤ slab_off s)
unfolding slab_off
slab_off-disjoint c set s t h pos i j same ne =
    let s-off : s.size * s.index ≡ c.slab_size * s.index = rw i.0 in
    let t-off : t.size * t.index ≡ c.slab_size * t.index = rw j.0 in
    elim (dec_lt s.index t.index) [
      | yes lt ↦ inl (omega (arith, s-off, t-off, below _ _ lt j.1, h))
      | no ge ↦ elim (dec_lt t.index s.index) [
        | yes gt ↦ inr (omega (arith, s-off, t-off, below _ _ gt i.1, h))
        | no le ↦ absurd (ne (ground arith))
      ]
    ]
  where
    below :
        (n m : ℕ)
        → n < m
        → m ≤ c.slab_per_file
        → (c.slab_size * n + c.slab_size ≤ c.slab_size * m)
          × (c.slab_size * m + c.slab_size ≤ c.slab_size * (c.slab_per_file + 1))
    below n m l k = (grind arith, grind arith)

-- A class all of whose free slabs are its own.
pub record IsClass (c : SingleFileSlab) : Type 0 where
  pub size : c.slab_size < 2 ^ 16
  pub free : All (λ s. s.size ≡ c.slab_size) c.free_slab

take_slab-size :
    (c : SingleFileSlab) (set : List SlabName) → IsClass c → (take_slab c set).0.size ≡ c.slab_size
unfolding take_slab create_file
take_slab-size c set k = go c.free_slab refl k.free
  where
    go :
        (free : List Slab)
        → c.free_slab ≡ free
        → All (λ s. s.size ≡ c.slab_size) free
        → (take_slab c set).0.size ≡ c.slab_size
    go [] e h = elim (Bool-cases (c.cur_slab == c.slab_per_file)) [
      | inl t ↦ rw (e, take_slab, t) (mod-eq_of_lt k.size)
      | inr t ↦ rw (e, take_slab, t) (mod-eq_of_lt k.size)
    ]
    go (s ∷ rest) e h = rw (e, take_slab) h.0

-- Where the slabs of each class are smaller than 2^16 bytes and its free slabs have its size, `Create`
-- throws if a record is larger than the slabs of every class. Otherwise the first class whose slabs are
-- large enough gives a slab, which has room for the record, and the other classes stay as they are.
pub create_fits :
    (cs : List SingleFileSlab) (set : List SlabName) (size : ℕ)
    → All IsClass cs
    → ((create cs set size ≡ fault thrown) × All (λ c. c.slab_size < size) cs)
      ⊎ ((before : List SingleFileSlab) × (c : SingleFileSlab) × (behind : List SingleFileSlab)
          × (cs ≡ before ++ (c ∷ behind))
          × All (λ b. b.slab_size < size) before
          × (size ≤ c.slab_size)
          × (create cs set size
              ≡ ok (
                (take_slab c set).0,
                before ++ ((take_slab c set).1 ∷ behind),
                (take_slab c set).2,
              ))
          × (size ≤ (take_slab c set).0.size))
unfolding create
create_fits [] set size h = inl (refl, tt)
create_fits (c ∷ cs) set size h = elim (Bool-cases (leb size c.slab_size)) [
  | inl t ↦
      let fits : size ≤ (take_slab c set).0.size = ground (arith, take_slab-size c set h.0) in
      inr ([], c, cs, refl, tt, ground arith, rw t refl, fits)
  | inr t ↦ elim (create_fits cs set size h.1) [
    | inl (e, small) ↦ inl (rw (t, e), (ground arith, small))
    | inr (before, b, behind, split, small, large, e, fits) ↦ inr (
      c ∷ before,
      b,
      behind,
      ap (◌∷◌ c) split,
      (ground arith, small),
      large,
      rw (t, e) refl,
      fits,
    )
  ]
]
