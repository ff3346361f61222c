-- ===== src/Memslab.antt =====
-- util/memslab.c and util/freelist.c: pieces of one size, from an arena or from a list of freed ones.
-- The head of the list is a node without data; `free` has the data of the others. The header of
-- `struct memslab` is not in the repository; its members are those that the functions use.
mod Reuse
mod Tests
use ktable_fs.Base.{ℕ, Option, none, some, List, [], ◌∷◌, Result, ok, ◌>>=◌}
use ktable_fs.Arena.{Address, Arena, arena_new, allocate}

-- `struct freelist` in an arena, and `struct memslab` with its arena.
pub record Memslab : Type 0 where
  pub arena : Arena
  pub free : List Address
  pub slab_size : ℕ

-- The sizes of `struct memslab`, `struct freelist` and `struct list_node`.
abbrev memslab_bytes : ℕ
memslab_bytes = 24

abbrev freelist_bytes : ℕ
freelist_bytes = 16

abbrev pub node_bytes : ℕ
node_bytes = 16

module _ (block_size nb_blocks : ℕ) where
  -- `memslab_new`, with `freelist_new` in the arena.
  unfoldable pub memslab_new : ℕ → Result Memslab
  memslab_new size = do
    (_, a1) ← allocate block_size nb_blocks (arena_new block_size nb_blocks) memslab_bytes
    (_, a2) ← allocate block_size nb_blocks a1 freelist_bytes
    (_, a3) ← allocate block_size nb_blocks a2 node_bytes
    ok (record { arena = a3; free = []; slab_size = size })

  -- `freelist_get`: the data of the first node.
  unfoldable pub freelist_get : Memslab → Option Address × Memslab
  freelist_get m = elim m.free [ [] ↦ (none, m) | p ∷ ps ↦ (some p, record m { free = ps }) ]

  -- `memslab_alloc`
  unfoldable pub memslab_alloc : Memslab → Result (Address × Memslab)
  unfolding freelist_get
  memslab_alloc m =
      let (datum, m') = freelist_get m in
      elim datum [
        | some p ↦ ok (p, m')
        | none ↦ do
          (p, a) ← allocate block_size nb_blocks m.arena m.slab_size
          ok (p, record m { arena = a })
      ]

  -- `memslab_free`, with `freelist_add`: a new node comes from the arena.
  unfoldable pub memslab_free : Memslab → Address → Result Memslab
  memslab_free m p = do
    (_, a) ← allocate block_size nb_blocks m.arena node_bytes
    ok (record m { arena = a; free = p ∷ m.free })
