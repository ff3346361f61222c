-- ===== src/HashTable/Tests.antt =====
-- Small inputs for util/hash_table.c: a key is its own hash.
use ktable_fs.Base.{ℕ, ◌≡◌, refl, none, some}
use ktable_fs.HashTable.{HashTable, find_hash, insert_key}

abbrev id_hash : ℕ → ℕ
id_hash k = k

abbrev table : HashTable ℕ ℕ
table = record { key = λ i. some 5; datum = λ i. some 9; table_size = 4 }

replaced : find_hash id_hash (insert_key id_hash table 13 7) 13 ≡ some (13, some 7)
unfolding find_hash insert_key
replaced = refl

kept : find_hash id_hash (insert_key id_hash table 13 7) 2 ≡ none
unfolding find_hash insert_key
kept = refl
