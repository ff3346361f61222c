-- ===== src/Posix/Memory.antt =====
-- A file system in memory that meets `Laws`: the hypotheses on the operating system can hold.
use ktable_fs.Base.{
  ℕ, zero, suc, ◌+◌, ◌≤◌, ◌<◌, ◌≡◌, ◌≢◌, ◌⊎◌, refl, Bool, true, false, Option, none, some, inl, inr,
  List, [], ◌∷◌, ◌++◌, arith, length, get_elem?, get_elem?-append, ◌==◌, if◌then◌else◌, ◌∙◌, ap,
  sym, Bool-cases,
}
use ktable_fs.Slice.{equal}
use ktable_fs.Slice.Order.{equal_iff}
use ktable_fs.Posix.{FileName, Posix, Laws}

-- The names of the descriptors 1, 2, …, and the bytes of each file; `none` is behind the end.
pub record Os : Type 0 where
  pub table : List FileName
  pub byte : FileName → ℕ → Option ℕ

unfoldable pub same_name : FileName → FileName → Bool
same_name (FileName.aggr n) (FileName.aggr m) = n == m
same_name (FileName.large n) (FileName.large m) = n == m
same_name (FileName.path n) (FileName.path m) = equal n m
same_name _ _ = false

unfoldable pub name_of : Os → ℕ → Option FileName
name_of os zero = none
name_of os (suc fd) = get_elem? os.table fd

collect : (ℕ → Option ℕ) → ℕ → ℕ → List ℕ
collect f zero off = []
collect f (suc n) off =
    let rest = collect f n (off + 1) in elim (f off) [ none ↦ [] | some b ↦ b ∷ rest ]

put : (ℕ → Option ℕ) → List ℕ → ℕ → ℕ → Option ℕ
put f [] off i = f i
put f (b ∷ bs) off i = if i == off then some b else put f bs (off + 1) i

unfoldable pub open_file : Os → FileName → ℕ × Os
open_file os n = (suc (length os.table), record os { table = os.table ++ (n ∷ []) })

unfoldable pub read_at : Os → Option FileName → ℕ → ℕ → List ℕ
unfolding collect
read_at os none size off = []
read_at os (some n) size off = collect (os.byte n) size off

unfoldable pub write_at : Os → Option FileName → List ℕ → ℕ → ℕ × Os
unfolding put same_name
write_at os none d off = (0, os)
write_at os (some n) d off =
    (length d, record os { byte = λ m. if same_name n m then put (os.byte n) d off else os.byte m })

abbrev pub memory : Posix
memory = record {
  Os = Os;
  open_file = open_file;
  close = λ os fd. os;
  remove = λ os n. os;
  pread = λ os fd size off. read_at os (name_of os fd) size off;
  pwrite = λ os fd d off. write_at os (name_of os fd) d off;
}

pub same_name_refl : (n : FileName) → same_name n n ≡ true
unfolding same_name
same_name_refl (FileName.aggr n) = ground arith
same_name_refl (FileName.large n) = ground arith
same_name_refl (FileName.path n) = (equal_iff n n).1 refl

pub same_name_ne : (n m : FileName) → n ≢ m → same_name n m ≡ false
unfolding same_name
same_name_ne (FileName.aggr n) (FileName.aggr m) h = ground arith
same_name_ne (FileName.large n) (FileName.large m) h = ground arith
same_name_ne (FileName.path n) (FileName.path m) h = elim (Bool-cases (equal n m)) [
  | inl same ↦ absurd (h (ap FileName.path ((equal_iff n m).0 same)))
  | inr other ↦ other
]
same_name_ne (FileName.aggr n) (FileName.path m) h = refl
same_name_ne (FileName.large n) (FileName.path m) h = refl
same_name_ne (FileName.path n) (FileName.aggr m) h = refl
same_name_ne (FileName.path n) (FileName.large m) h = refl
same_name_ne (FileName.aggr n) (FileName.large m) h = refl
same_name_ne (FileName.large n) (FileName.aggr m) h = refl

collect-cong :
    (f g : ℕ → Option ℕ) (n off : ℕ)
    → ((i : ℕ) → off ≤ i → i < off + n → f i ≡ g i)
    → collect f n off ≡ collect g n off
unfolding collect
collect-cong f g zero off h = refl
collect-cong f g (suc n) off h = ground (
  arith,
  h off (omega arith) (omega arith),
  collect-cong f g n (off + 1) (λ i l u. h i (omega arith) (omega arith)),
)

put-before : (f : ℕ → Option ℕ) (d : List ℕ) (off i : ℕ) → i < off → put f d off i ≡ f i
unfolding put
put-before f [] off i h = refl
put-before f (b ∷ bs) off i h = ground (arith, put-before f bs (off + 1) i)

put-behind : (f : ℕ → Option ℕ) (d : List ℕ) (off i : ℕ) → off + length d ≤ i → put f d off i ≡ f i
unfolding put
put-behind f [] off i h = refl
put-behind f (b ∷ bs) off i h = ground (arith, put-behind f bs (off + 1) i)

collect-put : (f : ℕ → Option ℕ) (d : List ℕ) (off : ℕ) → collect (put f d off) (length d) off ≡ d
unfolding collect put
collect-put f [] off = refl
collect-put f (b ∷ bs) off = ground (
  arith,
  collect-put f bs (off + 1),
  collect-cong (put f (b ∷ bs) off) (put f bs (off + 1)) (length bs) (off + 1)
      (λ i l u. ground arith),
)

length-collect-le : (f : ℕ → Option ℕ) (n off : ℕ) → length (collect f n off) ≤ n
unfolding collect
length-collect-le f zero off = omega arith
length-collect-le f (suc n) off = ground (arith, length-collect-le f n (off + 1))

length-read_at-le :
    (os : Os) (n : Option FileName) (size off : ℕ) → length (read_at os n size off) ≤ size
unfolding read_at
length-read_at-le os none size off = omega arith
length-read_at-le os (some n) size off = length-collect-le (os.byte n) size off

get_elem?_last {ℓ} :
    {A : Type ℓ} (xs : List A) (x : A) → get_elem? (xs ++ (x ∷ [])) (length xs) ≡ some x
get_elem?_last [] x = refl
get_elem?_last (y ∷ xs) x = get_elem?_last xs x

name-pwrite :
    (os : Os) (n : Option FileName) (fd : ℕ) (d : List ℕ) (off : ℕ)
    → name_of (write_at os n d off).1 fd ≡ name_of os fd
unfolding name_of write_at
name-pwrite os none zero d off = refl
name-pwrite os none (suc fd) d off = refl
name-pwrite os (some n) zero d off = refl
name-pwrite os (some n) (suc fd) d off = refl

pread-eq :
    (os : Os) (n : Option FileName) (m : FileName) (size off : ℕ)
    → n ≡ some m
    → read_at os n size off ≡ collect (os.byte m) size off
unfolding read_at
pread-eq os n m size off h = rw h

byte-write_at :
    (os : Os) (n : Option FileName) (m m' : FileName) (d : List ℕ) (off : ℕ)
    → n ≡ some m
    → (write_at os n d off).1.byte m'
      ≡ (if same_name m m' then put (os.byte m) d off else os.byte m')
unfolding write_at
byte-write_at os n m m' d off h = rw h

-- What is read behind a write through `fd'` of the file `m'`.
pread-pwrite_eq :
    (os : Os) (m m' : FileName) (fd fd' : ℕ) (d : List ℕ) (off size off' : ℕ)
    → name_of os fd ≡ some m
    → name_of os fd' ≡ some m'
    → let os' = (write_at os (name_of os fd) d off).1 in
      read_at os' (name_of os' fd') size off'
      ≡ collect (if same_name m m' then put (os.byte m) d off else os.byte m') size off'
pread-pwrite_eq os m m' fd fd' d off size off' h h' =
    pread-eq _ _ m' size off' (name-pwrite os (name_of os fd) fd' d off ∙ h')
    ∙ ap (λ f. collect f size off') (byte-write_at os (name_of os fd) m m' d off h)

apart :
    (f : ℕ → Option ℕ) (d : List ℕ) (off size off' : ℕ)
    → (off' + size ≤ off) ⊎ (off + length d ≤ off')
    → (i : ℕ) → off' ≤ i
    → i < off' + size
    → put f d off i ≡ f i
apart f d off size off' (inl h) i l u = put-before f d off i (omega arith)
apart f d off size off' (inr h) i l u = put-behind f d off i (omega arith)

name-open_other :
    (os : Os) (n m : FileName) (fd : ℕ)
    → name_of os fd ≡ some m
    → name_of (open_file os n).1 fd ≡ some m
unfolding name_of open_file
name-open_other os n m zero h = h
name-open_other os n m (suc fd) h = get_elem?-append os.table (n ∷ []) fd h

name-open : (os : Os) (n : FileName) → name_of (open_file os n).1 (open_file os n).0 ≡ some n
unfolding name_of open_file
name-open os n = get_elem?_last os.table n

pub memory-Laws : Laws memory name_of
unfolding read_at write_at open_file
memory-Laws = record {
  open-positive = λ os n. ground arith;
  name-open = name-open;
  name-open_other = name-open_other;
  pread-open = λ os n m fd size off h. rw (h, name-open_other os n m fd h);
  pwrite_complete = λ os m fd d off h. rw h;
  name-pwrite = λ os fd fd' d off. name-pwrite os (name_of os fd) fd' d off;
  pread-pwrite = λ os m fd d off h.
      pread-pwrite_eq os m m fd fd d off (length d) off h h
      ∙ rw (same_name_refl m) (collect-put (os.byte m) d off);
  pread-pwrite_name = λ os m m' fd fd' d off size off' h h' k.
      pread-pwrite_eq os m m' fd fd' d off size off' h h'
      ∙ rw (same_name_ne m m' k) (sym (pread-eq os _ m' size off' h'));
  pread-pwrite_disjoint = λ os m fd fd' d off size off' h h' out full.
      pread-pwrite_eq os m m fd fd' d off size off' h h'
      ∙ rw (same_name_refl m) (collect-cong _ _ size off' (apart (os.byte m) d off size off' out))
      ∙ sym (pread-eq os _ m size off' h');
  length-pread-le = λ os fd size off. length-read_at-le os (name_of os fd) size off;
}
