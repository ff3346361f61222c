-- ===== src/HashTable/Contents.antt =====
-- What util/hash_table.c finds after a change of the table.
use ktable_fs.Base.{
  ℕ, ◌%◌, ◌≡◌, refl, inl, inr, Option, none, some, ◌==◌, if◌then◌else◌, Bool-cases, ap, ◌∙◌,
}
use ktable_fs.HashTable.{HashTable, find_hash, insert_key, remove_hash}

module _ {K D : Type 0} (hash_of : K → ℕ) (t : HashTable K D) where
  -- What is found of a hash where the table has these two.
  abbrev found_at : Option K → Option D → ℕ → Option (K × Option D)
  found_at key datum hash = elim key [
    | none ↦ none
    | some k ↦ if hash_of k == hash then some (k, datum) else none
  ]

  -- After an insertion the key is found under its hash; of the other hashes, those with its index
  -- are found no more, since it took the place of the key there, and the rest are as before.
  pub find_hash-insert_key :
      (k : K) (d : D) (hash : ℕ)
      → find_hash hash_of (insert_key hash_of t k d) hash ≡ (
          if hash_of k % t.table_size == hash % t.table_size
          then (if hash_of k == hash then some (k, some d) else none)
          else find_hash hash_of t hash)
  unfolding find_hash insert_key
  find_hash-insert_key k d hash =
      elim (Bool-cases (hash_of k % t.table_size == hash % t.table_size)) [
        | inl e ↦
            let stored : (insert_key hash_of t k d).datum (hash % t.table_size) ≡ some d =
              rw e refl in
            rw (find_hash, e) (ap (λ x. if hash_of k == hash then some (k, x) else none) stored)
        | inr e ↦
            let t' = insert_key hash_of t k d in
            let j = hash % t.table_size in
            let same_key : t'.key j ≡ t.key j = rw e refl in
            let same_datum : t'.datum j ≡ t.datum j = rw e refl in
            rw e (
              ap (λ x. found_at x (t'.datum j) hash) same_key
              ∙ ap (λ y. found_at (t.key j) y hash) same_datum)
      ]

  -- After a removal no hash with the index of the removed one is found, the rest are as before.
  pub find_hash-remove_hash :
      (gone hash : ℕ)
      → find_hash hash_of (remove_hash hash_of t gone) hash
        ≡ (if gone % t.table_size == hash % t.table_size then none else find_hash hash_of t hash)
  unfolding find_hash remove_hash
  find_hash-remove_hash gone hash = elim (Bool-cases (gone % t.table_size == hash % t.table_size)) [
    | inl e ↦ rw (find_hash, e) refl
    | inr e ↦ rw (find_hash, e) refl
  ]
