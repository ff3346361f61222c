-- ===== src/Memslab/Tests.antt =====
-- Small inputs for util/memslab.c, with blocks of 256 bytes.
use ktable_fs.Base.{inr, [], ◌∷◌, arith}
use ktable_fs.Arena.Disjoint.{Region}
use ktable_fs.Memslab.{Memslab}
use ktable_fs.Memslab.Reuse.{Pieces}

-- A piece of 8 bytes that is free, behind one that is in use.
abbrev slabs : Memslab
slabs = record {
  arena = record {
    alloc_ptr = record { block = 0; off = 16 };
    alloc_bytes_remaining = 240;
    max_blocks = 4;
    blocks = 0 ∷ [];
    fresh = 1;
    sizes = λ b. 256;
  };
  free = record { block = 0; off = 8 } ∷ [];
  slab_size = 8;
}

abbrev used : Region
used = record { at = record { block = 0; off = 0 }; size = 8 }

slabs-Pieces : Pieces slabs (used ∷ [])
slabs-Pieces = record {
  block = omega arith;
  room = omega arith;
  given = (
    (omega arith, omega arith, inr (omega arith)),
    ((omega arith, omega arith, inr (omega arith)), tt),
  );
  apart = ((inr (inr (omega arith)), tt), (tt, tt));
}
