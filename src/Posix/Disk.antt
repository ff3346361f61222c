-- ===== src/Posix/Disk.antt =====
-- Files as bytes that were written, with zeros between them: the hypotheses `ByteLaws` on the operating
-- system can hold.
use ktable_fs.Base.{
  ℕ, zero, suc, ◌+◌, ◌-◌, ◌≤◌, ◌<◌, ◌≡◌, ◌≢◌, ◌⊎◌, refl, ap, ◌∙◌, Option, none, some, inl, inr,
  List, [], ◌∷◌, arith, length, get_elem?, leb, ltb, ◌&&◌, if◌then◌else◌, Bool-cases,
}
use ktable_fs.Posix.{FileName, Posix, ByteLaws}
use ktable_fs.Posix.Memory.{same_name, same_name_refl, same_name_ne}

pub record Files : Type 0 where
  pub name : ℕ → Option FileName
  pub byte : FileName → ℕ → Option ℕ

or_zero : Option ℕ → ℕ
or_zero none = 0
or_zero (some x) = x

unfoldable pub read_bytes : (ℕ → Option ℕ) → ℕ → ℕ → List ℕ
unfolding or_zero
read_bytes f zero off = []
read_bytes f (suc n) off = or_zero (f off) ∷ read_bytes f n (off + 1)

unfoldable pub write_bytes : (ℕ → Option ℕ) → List ℕ → ℕ → ℕ → Option ℕ
write_bytes f d off a = if leb off a && ltb a (off + length d) then get_elem? d (a - off) else f a

unfoldable pub write_file : Files → Option FileName → List ℕ → ℕ → Files
unfolding write_bytes same_name
write_file os none d off = os
write_file os (some m) d off = record os {
  byte = λ m'. if same_name m m' then write_bytes (os.byte m') d off else os.byte m';
}

unfoldable pub read_file : Files → Option FileName → ℕ → ℕ → List ℕ
unfolding read_bytes
read_file os none size off = []
read_file os (some m) size off = read_bytes (os.byte m) size off

abbrev pub disk : Posix
disk = record {
  Os = Files;
  open_file = λ os n. (1, os);
  close = λ os fd. os;
  remove = λ os n. os;
  pread = λ os fd size off. read_file os (os.name fd) size off;
  pwrite = λ os fd d off. (length d, write_file os (os.name fd) d off);
}

length-read_bytes : (f : ℕ → Option ℕ) (n off : ℕ) → length (read_bytes f n off) ≡ n
unfolding read_bytes
length-read_bytes f zero off = refl
length-read_bytes f (suc n) off = ap suc (length-read_bytes f n (off + 1))

read_bytes-at :
    (f : ℕ → Option ℕ) (n off i : ℕ) {x : ℕ}
    → i < n
    → f (off + i) ≡ some x
    → get_elem? (read_bytes f n off) i ≡ some x
unfolding read_bytes or_zero
read_bytes-at f zero off i h e = absurd (omega arith)
read_bytes-at f (suc n) off zero h e = ground arith
read_bytes-at f (suc n) off (suc i) h e =
    let next : off + 1 + i ≡ off + suc i = omega arith in
    read_bytes-at f n (off + 1) i (omega arith) (ap f next ∙ e)

length-read_file-le :
    (os : Files) (o : Option FileName) (size off : ℕ) → length (read_file os o size off) ≤ size
unfolding read_file
length-read_file-le os none size off = omega arith
length-read_file-le os (some m) size off = omega (arith, length-read_bytes (os.byte m) size off)

name-write_file :
    (os : Files) (o : Option FileName) (d : List ℕ) (off fd : ℕ)
    → (write_file os o d off).name fd ≡ os.name fd
unfolding write_file
name-write_file os none d off fd = refl
name-write_file os (some m) d off fd = refl

write_bytes-in :
    (f : ℕ → Option ℕ) (d : List ℕ) (off i : ℕ)
    → i < length d
    → write_bytes f d off (off + i) ≡ get_elem? d i
unfolding write_bytes
write_bytes-in f d off i h =
    let back : off + i - off ≡ i = omega arith in ground (arith, ap (get_elem? d) back)

write_bytes-out :
    (f : ℕ → Option ℕ) (d : List ℕ) (off a : ℕ)
    → (a < off) ⊎ (off + length d ≤ a)
    → write_bytes f d off a ≡ f a
unfolding write_bytes
write_bytes-out f d off a (inl h) = ground arith
write_bytes-out f d off a (inr h) = ground arith

byte-other :
    (os : Files) (m m' : FileName) (d : List ℕ) (off a : ℕ)
    → (m ≢ m') ⊎ ((a < off) ⊎ (off + length d ≤ a))
    → (write_file os (some m) d off).byte m' a ≡ os.byte m' a
unfolding write_file
byte-other os m m' d off a (inl apart) = rw (same_name_ne m m' apart) refl
byte-other os m m' d off a (inr outside) = elim (Bool-cases (same_name m m')) [
  | inl same ↦ rw same (write_bytes-out (os.byte m') d off a outside)
  | inr other ↦ rw other refl
]

pub disk-ByteLaws : ByteLaws disk (λ os fd. os.name fd) (λ os m a. os.byte m a)
unfolding write_file write_bytes read_file
disk-ByteLaws = record {
  pread-written =
      λ os m fd size off i named h e. rw named (read_bytes-at (os.byte m) size off i h e);
  length-pread-le = λ os fd size off. length-read_file-le os (os.name fd) size off;
  pwrite_complete = λ os m fd d off named. refl;
  written-pwrite = λ os m fd d off i named h.
      rw (named, same_name_refl m) (write_bytes-in (os.byte m) d off i h);
  written-pwrite_other = λ os m m' fd d off a named h. rw named (byte-other os m m' d off a h);
  name-pwrite = λ os fd fd' d off. name-write_file os (os.name fd) d off fd';
}
