-- ===== src/FileKey/Codec.antt =====
-- The bytes of a file key (src/file_key.cc): they can be read back, and they keep the files of one
-- directory together in the order of the keys.
use native.Mathlib.Decide.{dec_lt}
use native.Mathlib.Nat.{mod-eq_of_lt, mod-lt}
use ktable_fs.Base.{
  ℕ, zero, suc, ◌+◌, ◌%◌, ◌^◌, ◌≤◌, ◌<◌, ◌≡◌, ◌↔◌, ◌⊎◌, ◌*◌, ◌/◌, ap, refl, true, false, none, some,
  [], ◌++◌, ltb, arith, ok, inl, inr,
}
use ktable_fs.Bytes.{le_bytes, be_bytes, read_be-be_bytes, read_le-le_bytes, mod-pow_suc, pow-pos}
use ktable_fs.Slice.{Slice, less}
use ktable_fs.Slice.Order.{lex, less-lex}
use ktable_fs.FileKey.{FileKey, from_slice, to_slice}

-- A key that `FileKey(ino, n)` can make: its members have 64 and 32 bits, and it has a name.
pub record IsKey (k : FileKey) (n : Slice) : Type 0 where
  pub ino : k.dir_ino < 2 ^ 64
  pub hash : k.hash < 2 ^ 32
  pub name : k.name ≡ some n

-- From the bytes of a key that has a name, and whose inode number and hash fit 64 and 32 bits,
-- `FileKey(const Slice*)` reads the same key.
pub from_slice-to_slice : (k : FileKey) (n : Slice) → IsKey k n → from_slice (to_slice k) ≡ ok k
unfolding from_slice to_slice
from_slice-to_slice k n h =
    rw (read_be-be_bytes, read_le-le_bytes, mod-eq_of_lt h.ino, mod-eq_of_lt h.hash)
      (ground (arith, h.name))

-- Of two numbers with two digits, the first digits decide unless they are the same.
digits_lt :
    (q da ra db rb : ℕ) → rb < q → da * q + ra < db * q + rb → (da < db) ⊎ ((da ≡ db) × (ra < rb))
digits_lt q da ra db rb h l = elim (dec_lt da db) [
  | yes less ↦ inl less
  | no ge ↦ elim (dec_lt db da) [
    | yes gt ↦ absurd (omega (arith, mul_le db da q gt))
    | no le ↦ let e : da ≡ db = omega arith in inr (e, omega (arith, ap (λ (t : ℕ). t * q) e))
  ]
]
  where
    mul_le : (n m q : ℕ) → n < m → n * q + q ≤ m * q
    mul_le n m q h = grind arith

-- Big-endian numbers of one width compare as their bytes do.
module _ (x y : Slice) where
  pub lex_lt :
      (n a b : ℕ) → a % 256 ^ n < b % 256 ^ n → lex (be_bytes n a ++ x) (be_bytes n b ++ y) ≡ true
  unfolding lex be_bytes
  lex_lt zero a b h = absurd (omega arith)
  lex_lt (suc n) a b h =
      elim (digits_lt (256 ^ n) (a / 256 ^ n % 256) (a % 256 ^ n) (b / 256 ^ n % 256) (b % 256 ^ n)
        (mod-lt b (pow-pos n)) (omega (arith, mod-pow_suc n a, mod-pow_suc n b))) [
          | inl less ↦ ground arith
          | inr (e, less) ↦ ground (arith, lex_lt n a b less)
        ]

  pub lex_gt :
      (n a b : ℕ) → b % 256 ^ n < a % 256 ^ n → lex (be_bytes n a ++ x) (be_bytes n b ++ y) ≡ false
  unfolding lex be_bytes
  lex_gt zero a b h = absurd (omega arith)
  lex_gt (suc n) a b h =
      elim (digits_lt (256 ^ n) (b / 256 ^ n % 256) (b % 256 ^ n) (a / 256 ^ n % 256) (a % 256 ^ n)
        (mod-lt a (pow-pos n)) (omega (arith, mod-pow_suc n a, mod-pow_suc n b))) [
          | inl less ↦ ground arith
          | inr (e, less) ↦ ground (arith, lex_gt n a b less)
        ]

  pub lex_eq : (n a : ℕ) → lex (be_bytes n a ++ x) (be_bytes n a ++ y) ≡ lex x y
  unfolding lex be_bytes
  lex_eq zero a = refl
  lex_eq (suc n) a = ground (arith, lex_eq n a)

-- No four bytes and more are less than four zeros.
lex_zeros : (v : ℕ) (n : Slice) → lex (le_bytes 4 v ++ n) (le_bytes 4 0 ++ []) ≡ false
unfolding lex le_bytes
lex_zeros v n = ground arith

-- The keys that `ReadDir_` scans for a directory: from that key up to the next, without it.
unfoldable pub dir_key : ℕ → FileKey
dir_key dir = record { dir_ino = dir; hash = 0; name = none }

-- Against the key of a directory alone, only the directories count.
less-dir_key :
    (k : FileKey) (dir : ℕ)
    → k.dir_ino < 2 ^ 64
    → dir < 2 ^ 64
    → less (to_slice k) (to_slice (dir_key dir)) ≡ ltb k.dir_ino dir
unfolding to_slice dir_key
less-dir_key k dir h l = rw less-lex (elim (dec_lt k.dir_ino dir) [
  | yes lt ↦ rw (lex_lt back zeros 8 k.dir_ino dir (omega (arith, a, b))) (ground arith)
  | no ge ↦ elim (dec_lt dir k.dir_ino) [
    | yes gt ↦ rw (lex_gt back zeros 8 k.dir_ino dir (omega (arith, a, b))) (ground arith)
    | no le ↦ let e : dir ≡ k.dir_ino = omega arith in rw (e, lex_eq, lex_zeros) (ground arith)
  ]
])
  where
    back : Slice
    back = le_bytes 4 k.hash ++ (elim k.name [ none ↦ [] | some n ↦ n ])

    zeros : Slice
    zeros = le_bytes 4 0 ++ []

    a : k.dir_ino % 256 ^ 8 ≡ k.dir_ino
    a = mod-eq_of_lt h

    b : dir % 256 ^ 8 ≡ dir
    b = mod-eq_of_lt l

-- A key lies in the range that a scan of directory `dir` covers exactly if it is the key of a file
-- in that directory, for inode numbers below 2^64, and `dir` not the last of them.
pub scan_iff :
    (k : FileKey) (dir : ℕ)
    → k.dir_ino < 2 ^ 64
    → dir + 1 < 2 ^ 64
    → ((less (to_slice k) (to_slice (dir_key dir)) ≡ false)
        × (less (to_slice k) (to_slice (dir_key (dir + 1))) ≡ true))
      ↔ (k.dir_ino ≡ dir)
scan_iff k dir h l =
    rw (less-dir_key k dir h (omega arith), less-dir_key k (dir + 1) h l) (ground arith)
