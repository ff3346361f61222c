-- ===== src/Hash.antt =====
-- `Hash::MurmurHash2` of util/hash.cc. A `uint32_t` product is taken modulo 2^32.
use Prim.Native.Nat.{bit_xor}
use ktable_fs.Base.{ℕ, ◌+◌, ◌*◌, ◌/◌, ◌^◌, List, [], ◌∷◌, length, u32}

abbrev m : ℕ
m = 0x5bd1e995

-- `h ^= h >> r`
abbrev xor_shift : ℕ → ℕ → ℕ
xor_shift h r = bit_xor h (h / 2 ^ r)

-- One round of the loop, over four bytes in memory order.
unfoldable pub mix : ℕ → ℕ → ℕ → ℕ → ℕ → ℕ
mix h a b c d =
    let k = a + 2 ^ 8 * b + 2 ^ 16 * c + 2 ^ 24 * d in
    let k1 = u32 (k * m) in let k2 = u32 (xor_shift k1 24 * m) in bit_xor (u32 (h * m)) k2

-- The `switch` on the bytes that are left, which falls through.
unfoldable pub tail : ℕ → List ℕ → ℕ
tail h (a ∷ b ∷ c ∷ rest) = u32 (bit_xor (bit_xor (bit_xor h (c * 2 ^ 16)) (b * 2 ^ 8)) a * m)
tail h (a ∷ b ∷ []) = u32 (bit_xor (bit_xor h (b * 2 ^ 8)) a * m)
tail h (a ∷ []) = u32 (bit_xor h a * m)
tail h [] = h

-- The loop, `while (len >= 4)`, and what follows it.
unfoldable pub rounds : ℕ → List ℕ → ℕ
unfolding mix tail
rounds h (a ∷ b ∷ c ∷ d ∷ rest) = rounds (mix h a b c d) rest
rounds h rest = tail h rest

unfoldable pub murmur_hash2 : List ℕ → ℕ → ℕ
unfolding rounds
murmur_hash2 key seed =
    let h = rounds (bit_xor (u32 seed) (u32 (length key))) key in
    let h1 = u32 (xor_shift h 13 * m) in xor_shift h1 15
