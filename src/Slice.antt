-- ===== src/Slice.antt =====
-- `Slice` of lib/kvengine/include/kvengine/slice.h: a range of bytes. The model of a slice is the list
-- of its bytes; `data_` and `size_` are its elements and its length.
pub mod Order
mod Tests
use Prim.Native.Nat.{min, compare, Ordering}
use ktable_fs.Base.{
  ℕ, zero, suc, ◌+◌, ◌≡◌, Bool, true, false, ◌&&◌, List, [], ◌∷◌, ltb, leb, ◌==◌, if◌then◌else◌,
  length, drop, not, Result, fault, assert_failed, out_of_range, ok, ◌>>=◌, ◌>>◌, assert, Option,
  none, some, get_elem?,
}

abbrev pub Slice : Type 0
Slice = List ℕ

-- The sign of `memcmp(a, b, n)`; bytes compare as unsigned numbers.
unfoldable pub memcmp : Slice → Slice → ℕ → Ordering
memcmp a b zero = Ordering.eq
memcmp (x ∷ a) (y ∷ b) (suc n) =
    let rest = memcmp a b n in
    elim (compare x y) [
      | Ordering.lt ↦ Ordering.lt
      | Ordering.gt ↦ Ordering.gt
      | Ordering.eq ↦ rest
    ]
memcmp [] b (suc n) = Ordering.eq
memcmp (x ∷ a) [] (suc n) = Ordering.eq

abbrev pub is_lt : Ordering → Bool
is_lt Ordering.lt = true
is_lt Ordering.eq = false
is_lt Ordering.gt = false

abbrev pub is_eq : Ordering → Bool
is_eq Ordering.lt = false
is_eq Ordering.eq = true
is_eq Ordering.gt = false

-- `operator<`
unfoldable pub less : Slice → Slice → Bool
less a b =
    let min_len = min (length a) (length b) in
    let r = memcmp a b min_len in
    let r' = if is_eq r && ltb (length a) (length b) then Ordering.lt else r in is_lt r'

-- `operator==`
unfoldable pub equal : Slice → Slice → Bool
equal x y = (length x == length y) && is_eq (memcmp x y (length x))

-- `Slice::compare`
unfoldable pub compare_slices : Slice → Slice → Ordering
compare_slices a b =
    let min_len = if ltb (length a) (length b) then length a else length b in
    elim (memcmp a b min_len) [
      | Ordering.lt ↦ Ordering.lt
      | Ordering.gt ↦ Ordering.gt
      | Ordering.eq ↦
          if ltb (length a) (length b)
          then Ordering.lt
          else if ltb (length b) (length a)
          then Ordering.gt
          else Ordering.eq
    ]

-- `Slice::starts_with`
unfoldable pub starts_with : Slice → Slice → Bool
starts_with a x = leb (length x) (length a) && is_eq (memcmp a x (length x))

-- `Slice::operator[]` and `Slice::remove_prefix`, with their asserts
unfoldable pub at : Slice → ℕ → Result ℕ
at a n = do
  assert (ltb n (length a))
  elim (get_elem? a n) [ none ↦ fault out_of_range | some b ↦ ok b ]

unfoldable pub remove_prefix : Slice → ℕ → Result Slice
remove_prefix a n = do assert (leb n (length a)); ok (drop n a)
