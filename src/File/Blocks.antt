-- ===== src/File/Blocks.antt =====
-- The number of blocks that src/file.cc reports.
use ktable_fs.Base.{ℕ, ◌+◌, ◌-◌, ◌*◌, ◌%◌, ◌^◌, ◌<◌, ◌≤◌, ◌≡◌, arith}
use native.Mathlib.Nat.{div-add-mod'}
use ktable_fs.File.{File, fuse_entry}

-- For a block size of at least 1, and sizes whose sum does not wrap, the blocks that `FuseEntry`
-- reports hold the whole file, and one block less would not.
pub fuse_entry-blocks :
    (b : ℕ) (f : File)
    → 0 < b
    → f.st_size + b ≤ 2 ^ 64
    → (f.st_size ≤ (fuse_entry b f).st_blocks * b)
      × ((fuse_entry b f).st_blocks * b < f.st_size + b)
unfolding fuse_entry
fuse_entry-blocks b f h i =
    let e : (f.st_size + b - 1) % 2 ^ 64 ≡ f.st_size + b - 1 = omega arith in
    rw e (
      omega (arith, div-add-mod' (f.st_size + b - 1) b),
      omega (arith, div-add-mod' (f.st_size + b - 1) b),
    )
