-- ===== src/Arena/Aligned/Multiple.antt =====
-- Aligned memory of util/arena.c is aligned, and does not overlap with other memory.
use Prim.Native.Nat.{bit_and}
use native.Mathlib.Nat.{div-add-mod', mod-lt, mul-mod_left}
use ktable_fs.Base.{
  ℕ, ◌+◌, ◌-◌, ◌*◌, ◌/◌, ◌%◌, ◌^◌, ◌≤◌, ◌<◌, ◌≡◌, refl, inl, inr, true, List, ◌∷◌, ltb, leb, ◌==◌,
  arith, ok, All-map, Bool-cases,
}
use ktable_fs.Arena.{Address, Arena, align_8, alloc_block, swap_last}
use ktable_fs.Arena.Disjoint.{Region, Account}
use ktable_fs.Arena.Aligned.{to_nat, gap, align_ptr, allocate_aligned}

module _ (base : ℕ → ℕ) (align : ℕ) (pos : 0 < align) (a : Arena) (live : List Region)
    (k : Account a live) where
  reach :
      (p : Address)
      → base p.block + (p.off + ((to_nat base p + align) / align * align - to_nat base p))
        ≡ (to_nat base p + align) / align * align
  reach p =
      omega (arith, div-add-mod' (to_nat base p + align) align, mod-lt (to_nat base p + align) pos)

  never : 0 < 0 → ⊥
  never h = omega arith

  align_ptr-Account : Account (align_ptr base align a) live
  unfolding align_ptr
  align_ptr-Account = elim (Bool-cases (to_nat base a.alloc_ptr % align == 0)) [
    | inl t ↦ rw (align_ptr, t) k
    | inr t ↦ elim (Bool-cases (ltb (gap base align a) a.alloc_bytes_remaining)) [
      | inl u ↦
          rw (align_ptr, t, u)
            (record {
              block = k.block;
              room = ground (arith, k.room);
              given = All-map _ (λ r h. ground arith) live k.given;
              apart = k.apart;
            })
      | inr u ↦
          rw (align_ptr, t, u)
            (record {
              block = k.block;
              room = omega (arith, k.room);
              given = k.given;
              apart = k.apart;
            })
    ]
  ]

  align_ptr-fresh : (align_ptr base align a).fresh ≡ a.fresh
  unfolding align_ptr
  align_ptr-fresh = elim (Bool-cases (to_nat base a.alloc_ptr % align == 0)) [
    | inl t ↦ rw (align_ptr, t) refl
    | inr t ↦ elim (Bool-cases (ltb (gap base align a) a.alloc_bytes_remaining)) [
      | inl u ↦ rw (align_ptr, t, u) refl
      | inr u ↦ rw (align_ptr, t, u) refl
    ]
  ]

  -- Where bytes remain, the pointer is a multiple of `align`.
  align_ptr-multiple :
      0 < (align_ptr base align a).alloc_bytes_remaining
      → to_nat base (align_ptr base align a).alloc_ptr % align ≡ 0
  unfolding align_ptr
  align_ptr-multiple some_left = elim (Bool-cases (to_nat base a.alloc_ptr % align == 0)) [
    | inl t ↦ rw (align_ptr, t) (ground arith)
    | inr t ↦ elim (Bool-cases (ltb (gap base align a) a.alloc_bytes_remaining)) [
      | inl u ↦
          rw (align_ptr, t, u, reach a.alloc_ptr)
            (mul-mod_left ((to_nat base a.alloc_ptr + align) / align) align)
      | inr u ↦ absurd (never (rw (align_ptr, t, u) at some_left))
    ]
  ]

-- If no two regions in use overlap, nor one with the bytes that the arena has left, and the system
-- gives the next block at a multiple of `align`, a power of two, then an aligned allocation of at
-- least one byte succeeds at a multiple of `align`, and the first holds again with the new region.
-- Neither size wraps around 2^64 when it is rounded up to 8.
pub allocate_aligned-Account :
    (base : ℕ → ℕ) (block_size nb_blocks size align : ℕ) (a : Arena) (live : List Region)
    → Account a live
    → 0 < size
    → size + 7 < 2 ^ 64
    → block_size + 7 < 2 ^ 64
    → 0 < align
    → bit_and align (align - 1) ≡ 0
    → base a.fresh % align ≡ 0
    → (p : Address) × (a' : Arena) × (allocate_aligned base block_size nb_blocks a size align
        ≡ ok (p, a'))
      × (to_nat base p % align ≡ 0)
      × Account a' (record { at = p; size = align_8 size } ∷ live)
unfolding allocate_aligned alloc_block
allocate_aligned-Account base block_size nb_blocks size align a live k0 pos small small' pos' power
      new_block =
    let up' : block_size ≤ align_8 block_size = omega arith in
    let positive : ltb 0 size ≡ true = ground arith in
    let a0 = align_ptr base align a in
    let k = align_ptr-Account base align pos' a live k0 in
    elim (Bool-cases (leb (block_size / 4) (align_8 size))) [
      | inl t ↦ (
        record { block = a.fresh; off = 0 },
        record (alloc_block nb_blocks a (align_8 size)).1 {
          blocks = swap_last (a.fresh ∷ a.blocks);
        },
        rw (positive, power, t) refl,
        ground (arith, new_block),
        record {
          block = omega (arith, k0.block);
          room = ground (arith, k0.block, k0.room);
          given = (
            (ground (arith, k0.block), ground arith, ground (arith, k0.block)),
            All-map _ (λ r h. ground arith) live k0.given,
          );
          apart = (All-map _ (λ r h. ground arith) live k0.given, k0.apart);
        },
      )
      | inr t ↦ elim (Bool-cases (leb (align_8 size) a0.alloc_bytes_remaining)) [
        | inl u ↦ (
          a0.alloc_ptr,
          record a0 {
            alloc_ptr = record {
              block = a0.alloc_ptr.block;
              off = a0.alloc_ptr.off + align_8 size;
            };
            alloc_bytes_remaining = a0.alloc_bytes_remaining - align_8 size;
          },
          rw (positive, power, t, u) refl,
          align_ptr-multiple base align pos' a live k0 (ground arith),
          record {
            block = k.block;
            room = ground (arith, k.room);
            given = (
              (k.block, ground (arith, k.room), ground arith),
              All-map _ (λ r h. ground arith) live k.given,
            );
            apart = (All-map _ (λ r h. ground arith) live k.given, k.apart);
          },
        )
        | inr u ↦ (
          record { block = a0.fresh; off = 0 },
          record (alloc_block nb_blocks a0 block_size).1 {
            alloc_ptr = record { block = a0.fresh; off = align_8 size };
            alloc_bytes_remaining = block_size - align_8 size;
          },
          rw (positive, power, t, u) refl,
          ground (arith, new_block, align_ptr-fresh base align pos' a live k0),
          record {
            block = omega (arith, k.block);
            room = ground arith;
            given = (
              (ground arith, ground arith, ground arith),
              All-map _ (λ r h. ground arith) live k.given,
            );
            apart = (All-map _ (λ r h. ground arith) live k.given, k.apart);
          },
        )
      ]
    ]
