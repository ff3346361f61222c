-- ===== src/Arena/Disjoint.antt =====
-- The memory that util/arena.c gives out does not overlap.
use ktable_fs.Base.{
  ℕ, ◌+◌, ◌^◌, ◌-◌, ◌/◌, ◌<◌, ◌≤◌, ◌≡◌, ◌≢◌, ◌⊎◌, refl, inl, inr, true, List, [], ◌∷◌, ltb, leb,
  arith, ok, All, All-map, Bool-cases,
}
use ktable_fs.Arena.{Address, Arena, align_8, alloc_block, swap_last, allocate}

-- A part of memory that was given out: an address and a number of bytes.
pub record Region : Type 0 where
  pub at : Address
  pub size : ℕ

-- No byte is in both.
abbrev pub Apart : Region → Region → Type 0
Apart r s =
    (r.at.block ≢ s.at.block) ⊎ (r.at.off + r.size ≤ s.at.off) ⊎ (s.at.off + s.size ≤ r.at.off)

-- A region in the bytes of a block that the arena has, and not in those that it has left.
abbrev pub IsGiven : Arena → Region → Type 0
IsGiven a r =
    (r.at.block < a.fresh)
    × (r.at.off + r.size ≤ a.sizes r.at.block)
    × ((r.at.block ≢ a.alloc_ptr.block) ⊎ (r.at.off + r.size ≤ a.alloc_ptr.off))

-- The regions that were given out.
abbrev pub AllApart : List Region → Type 0
AllApart [] = Unit {0}
AllApart (r ∷ rs) = All (Apart r) rs × AllApart rs

pub record Account (a : Arena) (live : List Region) : Type 0 where
  pub block : a.alloc_ptr.block < a.fresh
  pub room : a.alloc_ptr.off + a.alloc_bytes_remaining ≤ a.sizes a.alloc_ptr.block
  pub given : All (IsGiven a) live
  pub apart : AllApart live

-- If each region in use is inside its block, no two overlap, nor one with the bytes that the arena has
-- left, which are inside their block too, then an allocation of at least one byte succeeds, and this
-- holds again with the new region, which has at least the bytes that were asked for. The size, and that
-- of a block, do not wrap around 2^64 when they are rounded up to 8, and malloc succeeds.
pub allocate-Account :
    (block_size nb_blocks size : ℕ) (a : Arena) (live : List Region)
    → Account a live
    → 0 < size
    → size + 7 < 2 ^ 64
    → block_size + 7 < 2 ^ 64
    → (p : Address) × (a' : Arena) × (allocate block_size nb_blocks a size ≡ ok (p, a'))
      × (size ≤ align_8 size)
      × Account a' (record { at = p; size = align_8 size } ∷ live)
unfolding allocate alloc_block
allocate-Account block_size nb_blocks size a live k pos small small' =
    let up : size ≤ align_8 size = omega arith in
    let up' : block_size ≤ align_8 block_size = omega arith in
    let positive : ltb 0 size ≡ true = ground arith in
    elim (Bool-cases (leb (block_size / 4) (align_8 size))) [
      | inl t ↦ (
        record { block = a.fresh; off = 0 },
        record (alloc_block nb_blocks a (align_8 size)).1 {
          blocks = swap_last (a.fresh ∷ a.blocks);
        },
        rw (positive, t) refl,
        up,
        record {
          block = omega (arith, k.block);
          room = ground (arith, k.block, k.room);
          given = (
            (ground (arith, k.block), ground arith, ground (arith, k.block)),
            All-map _ (λ r h. ground arith) live k.given,
          );
          apart = (All-map _ (λ r h. ground arith) live k.given, k.apart);
        },
      )
      | inr t ↦ elim (Bool-cases (leb (align_8 size) a.alloc_bytes_remaining)) [
        | inl u ↦ (
          a.alloc_ptr,
          record a {
            alloc_ptr = record { block = a.alloc_ptr.block; off = a.alloc_ptr.off + align_8 size };
            alloc_bytes_remaining = a.alloc_bytes_remaining - align_8 size;
          },
          rw (positive, t, u) refl,
          up,
          record {
            block = k.block;
            room = ground (arith, k.room);
            given = (
              (k.block, ground (arith, k.room), ground arith),
              All-map _ (λ r h. ground arith) live k.given,
            );
            apart = (All-map _ (λ r h. ground arith) live k.given, k.apart);
          },
        )
        | inr u ↦ (
          record { block = a.fresh; off = 0 },
          record (alloc_block nb_blocks a block_size).1 {
            alloc_ptr = record { block = a.fresh; off = align_8 size };
            alloc_bytes_remaining = block_size - align_8 size;
          },
          rw (positive, t, u) refl,
          up,
          record {
            block = omega (arith, k.block);
            room = ground arith;
            given = (
              (ground arith, ground arith, ground arith),
              All-map _ (λ r h. ground arith) live k.given,
            );
            apart = (All-map _ (λ r h. ground arith) live k.given, k.apart);
          },
        )
      ]
    ]
