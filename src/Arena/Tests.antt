-- ===== src/Arena/Tests.antt =====
-- Small inputs for util/arena.c, with blocks of 64 bytes.
use ktable_fs.Base.{◌≡◌, ◌≤◌, inr, [], ◌∷◌, ok, arith}
use ktable_fs.Arena.{Address, Arena, align_8, allocate}
use ktable_fs.Arena.Disjoint.{Region, Account, allocate-Account}

-- The first eight bytes of the first block are in use.
abbrev first : Region
first = record { at = record { block = 0; off = 0 }; size = 8 }

abbrev arena : Arena
arena = record {
  alloc_ptr = record { block = 0; off = 8 };
  alloc_bytes_remaining = 56;
  max_blocks = 4;
  blocks = 0 ∷ [];
  fresh = 1;
  sizes = λ b. 64;
}

arena-Account : Account arena (first ∷ [])
arena-Account = record {
  block = omega arith;
  room = omega arith;
  given = ((omega arith, omega arith, inr (omega arith)), tt);
  apart = (tt, tt);
}

allocate-Account_example :
    (p : Address) × (a' : Arena) × (allocate 64 4 arena 5 ≡ ok (p, a'))
    × (5 ≤ align_8 5)
    × Account a' (record { at = p; size = align_8 5 } ∷ first ∷ [])
allocate-Account_example =
    allocate-Account 64 4 5 arena (first ∷ []) arena-Account (omega arith) (omega arith)
      (omega arith)
