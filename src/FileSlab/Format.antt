-- ===== src/FileSlab/Format.antt =====
-- The record format of lib/kvengine/fileslab.cc.
use native.Mathlib.Nat.{add_assoc, mod-eq_of_lt}
use mathlib.Core.List.{append_assoc}
use ktable_fs.Base.{
  ℕ, zero, suc, ◌+◌, ◌*◌, ◌<◌, ◌^◌, ◌≡◌, refl, [], ◌∷◌, ◌++◌, arith, length, take, drop, u16, ok,
  fault, assert_failed, length-append, take-append, drop-append, drop-add, ◌%◌, ap, sym,
}
use ktable_fs.Bytes.{le_bytes, read_le, read_le-le_bytes, length-le_bytes}
use ktable_fs.Slice.{Slice}
use ktable_fs.FileSlab.{valid_flag, record_bytes, invalid_bytes, parse, read_callback, item_size}

take_whole : (n : ℕ) (xs : Slice) → length xs ≡ n → take n xs ≡ xs
take_whole zero [] h = refl
take_whole zero (x ∷ xs) h = absurd (omega arith)
take_whole (suc n) [] h = refl
take_whole (suc n) (x ∷ xs) h = ap (◌∷◌ x) (take_whole n xs (omega arith))

-- `u16` keeps a length below 2^16, so that `take` keeps the whole.
take-u16 : (xs : Slice) → length xs < 2 ^ 16 → take (u16 (length xs)) xs ≡ xs
take-u16 xs h = take_whole (u16 (length xs)) xs (sym (mod-eq_of_lt h))

length-record_bytes :
    (key value : Slice)
    → length key < 2 ^ 16
    → length value < 2 ^ 16
    → length (record_bytes key value) ≡ item_size key value
unfolding record_bytes item_size
length-record_bytes key value h k =
    rw (length-append, length-append, length-append, length-append)
      (rw (take-u16 key h, take-u16 value k)
        (omega (
          arith,
          length-le_bytes 2 valid_flag,
          length-le_bytes 2 (u16 (length key)),
          length-le_bytes 2 (u16 (length value)),
        )))

field : (xs : Slice) → length xs < 2 ^ 16 → u16 (length xs) % 256 ^ 2 ≡ length xs
field xs h = omega arith

parse_back :
    (key value rest : Slice)
    → length key < 2 ^ 16
    → length value < 2 ^ 16
    → parse (record_bytes key value ++ rest) ≡ ok (key, value)
unfolding parse record_bytes
parse_back key value rest h k = rw (
  append_assoc,
  append_assoc,
  append_assoc,
  append_assoc,
  take-u16 key h,
  take-u16 value k,
  read_le-le_bytes,
  read_le-le_bytes,
  read_le-le_bytes,
  field key h,
  field value k,
  take-append (length key) key (value ++ rest) refl,
  drop-append (length key) key (value ++ rest) refl,
  take-append (length value) value rest refl,
)

-- A record of a key and a value of fewer than 2^16 bytes each is as long as `Create` takes it to be,
-- and from a slab that begins with it the same key and value are read.
pub parse-record_bytes :
    (key value rest : Slice)
    → length key < 2 ^ 16
    → length value < 2 ^ 16
    → (length (record_bytes key value) ≡ item_size key value)
      × (parse (record_bytes key value ++ rest) ≡ ok (key, value))
parse-record_bytes key value rest h k =
    (length-record_bytes key value h k, parse_back key value rest h k)

callback_back :
    (before key value rest : Slice)
    → length key < 2 ^ 16
    → length value < 2 ^ 16
    → read_callback (before ++ (record_bytes key value ++ rest)) (length before)
      ≡ ok (length value, length before + 3 * 2 + length key)
unfolding read_callback record_bytes
callback_back before key value rest h k = rw (
  drop-append (length before) before _ refl,
  append_assoc,
  append_assoc,
  append_assoc,
  append_assoc,
  read_le-le_bytes,
  read_le-le_bytes,
  read_le-le_bytes,
  field key h,
  field value k,
)

drop_header :
    (key value rest : Slice)
    → length key < 2 ^ 16
    → length value < 2 ^ 16
    → drop (3 * 2 + length key) (record_bytes key value ++ rest) ≡ value ++ rest
unfolding record_bytes le_bytes
drop_header key value rest h k =
    rw (drop-add 6 (length key), take-u16 key h, take-u16 value k, append_assoc)
      (drop-append (length key) key (value ++ rest) refl)

-- In a page that holds at some offset a record of a key and a value of fewer than 2^16 bytes each,
-- the callback of a read finds the bytes of the value: its size, and the offset at which it lies
-- in the page.
pub read_callback-record_bytes :
    (before key value rest : Slice)
    → length key < 2 ^ 16
    → length value < 2 ^ 16
    → let page = before ++ (record_bytes key value ++ rest) in
      (size : ℕ) × (off : ℕ) × (read_callback page (length before) ≡ ok (size, off))
      × (take size (drop off page) ≡ value)
read_callback-record_bytes before key value rest h k = (
  length value,
  length before + 3 * 2 + length key,
  callback_back before key value rest h k,
  rw
      (
        add_assoc,
        drop-add,
        drop-append (length before) before _ refl,
        drop_header key value rest h k,
      )
      (take-append (length value) value rest refl),
)

-- After `FileSlab::Delete` has overwritten the start of a slab, reading it fails the assert.
pub parse-invalid_bytes : (rest : Slice) → parse (invalid_bytes ++ rest) ≡ fault assert_failed
unfolding parse invalid_bytes le_bytes read_le
parse-invalid_bytes rest = refl
