-- ===== src/Fs/Listing.antt =====
-- The listing of a directory in src/dir.cc: `ReadDirScan`, the callback of the scan, puts entries into
-- a buffer until one does not fit.
use ktable_fs.Base.{
  ℕ, zero, suc, ◌+◌, ◌-◌, ◌<◌, ◌≤◌, ◌≡◌, ◌⊎◌, refl, inl, inr, Bool, true, false, some, List, [],
  ◌∷◌, ◌++◌, ltb, leb, if◌then◌else◌, Result, ok, ◌>>=◌, length, take, drop, map, arith, Bool-cases,
  All, ap, sym, ◌∙◌,
}
use mathlib.Core.List.{append_assoc, append-nil}
use ktable_fs.Slice.{Slice}
use ktable_fs.FileKey.{FileKey, from_slice as key_from_slice, deref_name}
use ktable_fs.File.{File, from_slice as file_from_slice, Entry, fuse_entry}

-- An entry of the buffer: the name, the attributes and the offset behind it.
pub record DirEntry : Type 0 where
  pub name : Slice
  pub attr : Entry
  pub off : ℕ

-- The variables that the callback shares: the entries in the buffer, `buf_size` and `cur_off`.
pub record Listing : Type 0 where
  pub entries : List DirEntry
  pub buf_size : ℕ
  pub cur_off : ℕ

-- `ReadDirScan::operator()`. `entsize` is the size that fuse_add_direntry gives to a name;
-- `total_size` is the size of the buffer, and the entries up to `off` are skipped.
unfoldable pub read_dir_scan :
    (Slice → ℕ) → ℕ → ℕ → ℕ → Listing → Slice → Slice → Result (Bool × Listing)
read_dir_scan entsize blksize total_size off l key value =
    let cur = l.cur_off + 1 in
    let l1 : Listing = record l { cur_off = cur } in
    if leb cur off then ok (true, l1) else (do
      k ← key_from_slice key
      f ← file_from_slice value
      name ← deref_name k
      let remain = total_size - l.buf_size
      if ltb remain (entsize name)
          then ok (false, l1)
          else (let e : DirEntry = record { name = name; attr = fuse_entry blksize f; off = cur } in
              ok (
                true,
                record l1 { entries = l.entries ++ (e ∷ []); buf_size = l.buf_size + entsize name },
              )))

-- The calls of the callback on records in order, up to the first call that returns false.
unfoldable pub list_dir : (Slice → ℕ) → ℕ → ℕ → ℕ → Listing → List (Slice × Slice) → Result Listing
list_dir entsize blksize total_size off l [] = ok l
list_dir entsize blksize total_size off l ((k, v) ∷ rest) = do
  (more, l') ← read_dir_scan entsize blksize total_size off l k v
  if more then list_dir entsize blksize total_size off l' rest else ok l'

-- A record of a directory, as the database has it.
pub record Listed : Type 0 where
  pub name : Slice
  pub file : File
  pub key : Slice
  pub value : Slice

abbrev pub IsListed : Listed → Type 0
IsListed s =
    ((k : FileKey) × (key_from_slice s.key ≡ ok k) × (k.name ≡ some s.name))
    × (file_from_slice s.value ≡ ok s.file)

abbrev pub bytes_of : Listed → Slice × Slice
bytes_of s = (s.key, s.value)

-- The entries of records, numbered from `n + 1` on.
unfoldable pub entries_from : ℕ → ℕ → List Listed → List DirEntry
entries_from blksize n [] = []
entries_from blksize n (s ∷ rest) =
    record { name = s.name; attr = fuse_entry blksize s.file; off = n + 1 }
    ∷ entries_from blksize (n + 1) rest

-- Skipping the records up to `off`.
list_dir-skip :
    (entsize : Slice → ℕ) (blksize total_size off : ℕ) (l : Listing) (ss : List Listed) (n : ℕ)
    → l.cur_off + n ≤ off
    → n ≤ length ss
    → list_dir entsize blksize total_size off l (map bytes_of ss)
      ≡ list_dir entsize blksize total_size off
          (record l { cur_off = l.cur_off + n })
          (map bytes_of (drop n ss))
unfolding list_dir read_dir_scan
list_dir-skip entsize blksize total_size off l ss zero h k =
    let e : l.cur_off + 0 ≡ l.cur_off = omega arith in rw e refl
list_dir-skip entsize blksize total_size off l [] (suc n) h k = absurd (omega arith)
list_dir-skip entsize blksize total_size off l (s ∷ ss) (suc n) h k =
    let t : leb (l.cur_off + 1) off ≡ true = ground arith in
    let e : l.cur_off + 1 + n ≡ l.cur_off + suc n = omega arith in
    let next : Listing = record l { cur_off = l.cur_off + 1 } in
    let rest = list_dir-skip entsize blksize total_size off next ss n (omega arith) (omega arith) in
    rw (read_dir_scan, t) (rw e at rest)

-- Behind the skipped records, the listing gets the next ones, as many as fit.
list_dir-take :
    (entsize : Slice → ℕ) (blksize total_size off : ℕ) (l : Listing) (ss : List Listed)
    → off ≤ l.cur_off
    → All IsListed ss
    → (n : ℕ) × (l' : Listing) × (list_dir entsize blksize total_size off l (map bytes_of ss)
        ≡ ok l')
      × (l'.entries ≡ l.entries ++ entries_from blksize l.cur_off (take n ss))
      × (n ≤ length ss)
      × ((n ≡ length ss)
          ⊎ ((s : Listed) × (rest : List Listed) × (drop n ss ≡ s ∷ rest)
              × (total_size < l'.buf_size + entsize s.name)))
unfolding list_dir read_dir_scan entries_from deref_name
list_dir-take entsize blksize total_size off l [] h k =
    (0, l, refl, sym (append-nil l.entries), omega arith, inl refl)
list_dir-take entsize blksize total_size off l (s ∷ ss) h (((key, made, named), read), k) =
    let t : leb (l.cur_off + 1) off ≡ false = ground arith in
    elim (Bool-cases (ltb (total_size - l.buf_size) (entsize s.name))) [
      | inl u ↦ (
        0,
        record l { cur_off = l.cur_off + 1 },
        rw (read_dir_scan, t, made, read, named, u) refl,
        sym (append-nil l.entries),
        omega arith,
        inr (s, ss, refl, ground arith),
      )
      | inr u ↦
          let l1 : Listing = record {
            entries =
                l.entries
                ++ (record { name = s.name; attr = fuse_entry blksize s.file; off = l.cur_off + 1 }
                    ∷ []);
            buf_size = l.buf_size + entsize s.name;
            cur_off = l.cur_off + 1;
          } in
          let (n, l', e, found, le, why) =
            list_dir-take entsize blksize total_size off l1 ss (omega arith) k in
          (
            suc n,
            l',
            rw (read_dir_scan, t, made, read, named, u) e,
            rw append_assoc at found,
            omega arith,
            (elim why [ inl all ↦ inl (ap suc all) | inr next ↦ inr next ]),
          )
    ]

-- Called on the records of a directory in order, up to the first call that returns false, the callback
-- of a listing from an offset that is at most the number of records skips as many and puts the next
-- ones into the buffer, in order and numbered, until there are no more or one does not fit.
pub list_dir-entries :
    (entsize : Slice → ℕ) (blksize total_size off : ℕ) (ss : List Listed)
    → off ≤ length ss
    → All IsListed ss
    → (n : ℕ) × (l : Listing) × (list_dir entsize blksize total_size off
          (record { entries = []; buf_size = 0; cur_off = 0 })
          (map bytes_of ss)
        ≡ ok l)
      × (l.entries ≡ entries_from blksize off (take n (drop off ss)))
      × ((n ≡ length (drop off ss))
          ⊎ ((s : Listed) × (rest : List Listed) × (drop n (drop off ss) ≡ s ∷ rest)
              × (total_size < l.buf_size + entsize s.name)))
list_dir-entries entsize blksize total_size off ss h k =
    let start : Listing = record { entries = []; buf_size = 0; cur_off = off } in
    let (n, l, e, found, _, why) =
      list_dir-take entsize blksize total_size off start (drop off ss) (omega arith)
        (All-drop off ss k) in
    let empty : Listing = record { entries = []; buf_size = 0; cur_off = 0 } in
    let skipped = list_dir-skip entsize blksize total_size off empty ss off (omega arith) h in
    let same : 0 + off ≡ off = omega arith in (n, l, (rw same at skipped) ∙ e, found, why)
  where
    All-drop : (n : ℕ) (xs : List Listed) → All IsListed xs → All IsListed (drop n xs)
    All-drop zero xs a = a
    All-drop (suc n) [] a = tt
    All-drop (suc n) (x ∷ xs) a = All-drop n xs a.1
