-- ===== src/Arena.antt =====
-- util/arena.c: memory that is given out from blocks. A block stands for its number, in the order of
-- the calls of malloc, which is taken to return a block of the size that it is asked for; an address is a
-- block and an offset. `block_size` and `nb_blocks` are ARENA_BLOCK_SIZE and ARENA_NB_BLOCKS.
pub mod Disjoint
pub mod Aligned
mod Tests
use ktable_fs.Base.{
  ℕ, zero, suc, ◌+◌, ◌-◌, ◌*◌, ◌/◌, Bool, true, false, List, [], ◌∷◌, ◌++◌, ltb, leb, ◌==◌,
  if◌then◌else◌, length, take, Result, ok, u64, fault, assert_failed, assert, ◌>>=◌, ◌>>◌,
}

pub record Address : Type 0 where
  pub block : ℕ
  pub off : ℕ

-- `struct arena`; `blocks` are the blocks up to `alloc_blk_idx`, the last one first, and `fresh` is
-- the number of the next block. `sizes` has the bytes that each block was allocated with.
pub record Arena : Type 0 where
  pub alloc_ptr : Address
  pub alloc_bytes_remaining : ℕ
  pub max_blocks : ℕ
  pub blocks : List ℕ
  pub fresh : ℕ
  pub sizes : ℕ → ℕ

-- `arena_new`
unfoldable pub arena_new : ℕ → ℕ → Arena
arena_new block_size nb_blocks = record {
  alloc_ptr = record { block = 0; off = 0 };
  alloc_bytes_remaining = block_size;
  max_blocks = nb_blocks;
  blocks = 0 ∷ [];
  fresh = 1;
  sizes = λ b. block_size;
}

-- `(size + 7) & ~7`
abbrev pub align_8 : ℕ → ℕ
align_8 size = u64 (size + 7) / 8 * 8

-- `arena_alloc_block`: a new block becomes the last, and the array of blocks grows when it is full.
unfoldable pub alloc_block : ℕ → Arena → ℕ → ℕ × Arena
alloc_block nb_blocks a size = (
  a.fresh,
  record a {
    max_blocks = if length a.blocks == a.max_blocks then a.max_blocks + nb_blocks else a.max_blocks;
    blocks = a.fresh ∷ a.blocks;
    fresh = a.fresh + 1;
    sizes = λ b. if b == a.fresh then align_8 size else a.sizes b;
  },
)

-- The exchange of the last two blocks.
unfoldable pub swap_last : List ℕ → List ℕ
swap_last [] = []
swap_last (b ∷ []) = b ∷ []
swap_last (b ∷ c ∷ bs) = c ∷ b ∷ bs

-- `arena_allocate`
unfoldable pub allocate : ℕ → ℕ → Arena → ℕ → Result (Address × Arena)
allocate block_size nb_blocks a size = do
  assert (ltb 0 size)
  let n = align_8 size
  if leb (block_size / 4) n
      then (let (b, a') = alloc_block nb_blocks a n in
          ok (record { block = b; off = 0 }, record a' { blocks = swap_last a'.blocks }))
      else if leb n a.alloc_bytes_remaining
      then ok (
        a.alloc_ptr,
        record a {
          alloc_ptr = record { block = a.alloc_ptr.block; off = a.alloc_ptr.off + n };
          alloc_bytes_remaining = a.alloc_bytes_remaining - n;
        },
      )
      else (let (b, a') = alloc_block nb_blocks a block_size in
          ok (
            record { block = b; off = 0 },
            record a' {
              alloc_ptr = record { block = b; off = n };
              alloc_bytes_remaining = block_size - n;
            },
          ))
