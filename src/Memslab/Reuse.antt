-- ===== src/Memslab/Reuse.antt =====
-- No piece of util/memslab.c is given out twice.
use ktable_fs.Base.{ℕ, ◌+◌, ◌^◌, ◌<◌, ◌≡◌, refl, List, [], ◌∷◌, ◌++◌, map, ok}
use ktable_fs.Arena.{Address, align_8}
use ktable_fs.Arena.Disjoint.{Region, Account, allocate-Account}
use ktable_fs.Memslab.{Memslab, memslab_alloc, freelist_get}

-- The memory of a piece.
abbrev pub piece : Memslab → Address → Region
piece m p = record { at = p; size = align_8 m.slab_size }

-- The pieces on the free list, those in use and the other regions of the arena do not overlap.
abbrev pub Pieces : Memslab → List Region → Type 0
Pieces m live = Account m.arena (map (piece m) m.free ++ live)

-- A piece that is given out overlaps with no region in use and no free piece. Its size and that of a
-- block do not wrap around 2^64 when they are rounded up to 8.
pub memslab_alloc-Pieces :
    (block_size nb_blocks : ℕ) (m : Memslab) (live : List Region)
    → 0 < m.slab_size
    → m.slab_size + 7 < 2 ^ 64
    → block_size + 7 < 2 ^ 64
    → Pieces m live
    → (p : Address) × (m' : Memslab) × (memslab_alloc block_size nb_blocks m ≡ ok (p, m'))
      × Account m'.arena (piece m p ∷ (map (piece m') m'.free ++ live))
unfolding memslab_alloc freelist_get
memslab_alloc-Pieces block_size nb_blocks m live pos small small' k = go m.free k
  where
    of : List Address → Memslab
    of free = record { arena = m.arena; free = free; slab_size = m.slab_size }

    go :
        (free : List Address)
        → Pieces (of free) live
        → (p : Address) × (m' : Memslab) × (memslab_alloc block_size nb_blocks (of free)
            ≡ ok (p, m'))
          × Account m'.arena (piece (of free) p ∷ (map (piece m') m'.free ++ live))
    go [] h =
        let (p, a, made, _, account) =
          allocate-Account block_size nb_blocks m.slab_size m.arena live h pos small small' in
        (p, record { arena = a; free = []; slab_size = m.slab_size }, rw made refl, account)
    go (p ∷ ps) h = (p, of ps, refl, h)
