-- ===== src/Bytes.antt =====
-- Fixed-width integers as bytes, which src/file_key.cc and lib/kvengine/fileslab.cc read and write in
-- place: the machine is little-endian, and `FileKey` turns the inode number round.
use native.Mathlib.Nat.{div-add-mod', div-div-eq-div-mul, mul_comm, pow-suc}
use ktable_fs.Base.{
  ℕ, zero, suc, ◌+◌, ◌*◌, ◌/◌, ◌%◌, ◌^◌, ◌<◌, ◌≡◌, ap, refl, List, [], ◌∷◌, ◌++◌, arith, Result, ok,
  fault, out_of_range, ◌>>=◌, length,
}

-- The bytes of an `n`-byte integer in memory order, and the integer that such bytes stand for.
unfoldable pub le_bytes : ℕ → ℕ → List ℕ
le_bytes zero v = []
le_bytes (suc n) v = (v % 256) ∷ le_bytes n (v / 256)

-- Bytes read past the end of a buffer are out of range.
unfoldable pub read_le : ℕ → List ℕ → Result (ℕ × List ℕ)
read_le zero s = ok (0, s)
read_le (suc n) [] = fault out_of_range
read_le (suc n) (b ∷ s) = do (v, rest) ← read_le n s; ok (b + 256 * v, rest)

-- The loops `for (i = n - 1; i >= 0; --i)` over the bytes of an integer in memory.
unfoldable pub be_bytes : ℕ → ℕ → List ℕ
be_bytes zero v = []
be_bytes (suc i) v = (v / 256 ^ i % 256) ∷ be_bytes i v

unfoldable pub read_be : ℕ → List ℕ → Result (ℕ × List ℕ)
read_be zero s = ok (0, s)
read_be (suc i) [] = fault out_of_range
read_be (suc i) (b ∷ s) = do (v, rest) ← read_be i s; ok (b * 256 ^ i + v, rest)

pub pow-pos : (n : ℕ) → 0 < 256 ^ n
pow-pos zero = omega arith
pow-pos (suc n) = rw pow-suc (omega (arith, pow-pos n))

-- Two digits of a number, in any two bases.
mod-mul : (v p q : ℕ) → v % (p * q) ≡ v % p + p * (v / p % q)
mod-mul v p q = omega (
  arith,
  div-add-mod' v (p * q),
  div-add-mod' v p,
  ap (λ (t : ℕ). p * t) (div-add-mod' (v / p) q),
  ap (λ (t : ℕ). t * (p * q)) (div-div-eq-div-mul v p q),
)

pub mod-pow_suc : (n v : ℕ) → v % 256 ^ suc n ≡ (v / 256 ^ n % 256) * 256 ^ n + v % 256 ^ n
mod-pow_suc n v = rw pow-suc (omega (arith, mod-mul v (256 ^ n) 256))

pub read_be-be_bytes :
    (n v : ℕ) (rest : List ℕ) → read_be n (be_bytes n v ++ rest) ≡ ok (v % 256 ^ n, rest)
unfolding read_be be_bytes
read_be-be_bytes zero v rest = ground arith
read_be-be_bytes (suc n) v rest = rw (read_be-be_bytes n v rest, mod-pow_suc)

pub length-be_bytes : (n v : ℕ) → length (be_bytes n v) ≡ n
unfolding be_bytes
length-be_bytes zero v = refl
length-be_bytes (suc n) v = ap suc (length-be_bytes n v)

pub length-le_bytes : (n v : ℕ) → length (le_bytes n v) ≡ n
unfolding le_bytes
length-le_bytes zero v = refl
length-le_bytes (suc n) v = ap suc (length-le_bytes n (v / 256))

mod-pow_low : (n v : ℕ) → v % 256 ^ suc n ≡ v % 256 + 256 * (v / 256 % 256 ^ n)
mod-pow_low n v = rw (pow-suc, mul_comm) (mod-mul v 256 (256 ^ n))

pub read_le-le_bytes :
    (n v : ℕ) (rest : List ℕ) → read_le n (le_bytes n v ++ rest) ≡ ok (v % 256 ^ n, rest)
unfolding read_le le_bytes
read_le-le_bytes zero v rest = ground arith
read_le-le_bytes (suc n) v rest = rw (read_le-le_bytes n (v / 256) rest, mod-pow_low)
