-- ===== src/HashTable.antt =====
-- util/hash_table.c: a table with one key and one datum for each index. `hash_of` is the hash that a
-- key starts with, and `none` the null pointer; the header of the type is not in the repository.
mod Contents
mod Tests
use ktable_fs.Base.{ℕ, ◌+◌, ◌%◌, Bool, true, false, Option, none, some, ◌==◌, if◌then◌else◌}

-- `struct hash_table`
pub record HashTable (K D : Type 0) : Type 0 where
  pub key : ℕ → Option K
  pub datum : ℕ → Option D
  pub table_size : ℕ

abbrev pub set_at : {A : Type 0} → ℕ → A → (ℕ → A) → ℕ → A
set_at i a f j = if i == j then a else f j

module _ {K D : Type 0} (hash_of : K → ℕ) where
  -- `hash_table_new`
  unfoldable pub new_table : ℕ → HashTable K D
  new_table size = record { key = λ i. none; datum = λ i. none; table_size = size }

  -- `hash_table_find`: the key and the datum of a hash.
  unfoldable pub find_hash : HashTable K D → ℕ → Option (K × Option D)
  find_hash t hash =
      let i = hash % t.table_size in
      elim (t.key i) [
        | none ↦ none
        | some k ↦ if hash_of k == hash then some (k, t.datum i) else none
      ]

  -- `hash_table_insert` and `hash_table_remove`
  unfoldable pub insert_key : HashTable K D → K → D → HashTable K D
  insert_key t k d =
      let i = hash_of k % t.table_size in
      record t { key = set_at i (some k) t.key; datum = set_at i (some d) t.datum }

  unfoldable pub remove_hash : HashTable K D → ℕ → HashTable K D
  remove_hash t hash = record t { key = set_at (hash % t.table_size) none t.key }
