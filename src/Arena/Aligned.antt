-- ===== src/Arena/Aligned.antt =====
-- `arena_allocate_aligned` of util/arena.c. `base` is the address of each block, which malloc and
-- aligned_alloc choose.
pub mod Multiple
use Prim.Native.Nat.{bit_and}
use ktable_fs.Base.{
  ℕ, ◌+◌, ◌-◌, ◌*◌, ◌/◌, ◌%◌, Bool, true, false, List, ltb, leb, ◌==◌, if◌then◌else◌, Result, ok,
  assert, ◌>>=◌, ◌>>◌,
}
use ktable_fs.Arena.{Address, Arena, align_8, alloc_block, swap_last}

module _ (base : ℕ → ℕ) where
  -- The address as a number.
  abbrev pub to_nat : Address → ℕ
  to_nat p = base p.block + p.off

  -- From `alloc_ptr_` to the next multiple of `align`, a power of two.
  abbrev pub gap : ℕ → Arena → ℕ
  gap align a = (to_nat a.alloc_ptr + align) / align * align - to_nat a.alloc_ptr

  -- `alloc_ptr_` goes on to the next multiple of `align`, or gives up the rest of its block.
  unfoldable pub align_ptr : ℕ → Arena → Arena
  align_ptr align a =
      if to_nat a.alloc_ptr % align == 0
      then a
      else if ltb (gap align a) a.alloc_bytes_remaining
      then record a {
        alloc_ptr = record { block = a.alloc_ptr.block; off = a.alloc_ptr.off + gap align a };
        alloc_bytes_remaining = a.alloc_bytes_remaining - gap align a;
      }
      else record a { alloc_bytes_remaining = 0 }

  -- `arena_allocate_aligned`; `arena_alloc_block_aligned` differs from `arena_alloc_block` in the
  -- address of the new block alone.
  unfoldable pub allocate_aligned : ℕ → ℕ → Arena → ℕ → ℕ → Result (Address × Arena)
  allocate_aligned block_size nb_blocks a size align = do
    assert (ltb 0 size)
    assert (bit_and align (align - 1) == 0)
    let n = align_8 size
    let a0 = align_ptr align a
    if leb (block_size / 4) n
        then (let (b, a') = alloc_block nb_blocks a n in
            ok (record { block = b; off = 0 }, record a' { blocks = swap_last a'.blocks }))
        else if leb n a0.alloc_bytes_remaining
        then ok (
          a0.alloc_ptr,
          record a0 {
            alloc_ptr = record { block = a0.alloc_ptr.block; off = a0.alloc_ptr.off + n };
            alloc_bytes_remaining = a0.alloc_bytes_remaining - n;
          },
        )
        else (let (b, a') = alloc_block nb_blocks a0 block_size in
            ok (
              record { block = b; off = 0 },
              record a' {
                alloc_ptr = record { block = b; off = n };
                alloc_bytes_remaining = block_size - n;
              },
            ))
