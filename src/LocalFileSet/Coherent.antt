-- ===== src/LocalFileSet/Coherent.antt =====
-- The page cache against the files of slabs (lib/kvengine/local_fileset.cc): the pages that do not wait
-- for the disk have what was written to the files.
use mathlib.Core.Option.{some-injective}
use ktable_fs.Base.{
  ℕ, zero, suc, ◌+◌, ◌-◌, ◌*◌, ◌^◌, ◌≤◌, ◌<◌, ◌≡◌, ◌⊎◌, inl, inr, refl, sym, ap, true, false,
  Option, some, List, [], ◌∷◌, arith, length, get_elem?, get_or, set, ltb, ok, lt_of_get_elem?,
}
use ktable_fs.Posix.{FileName, Posix}
use ktable_fs.PageCache.{page_size, copy_to}
use ktable_fs.PageCache.Views.{View}
use ktable_fs.PageCache.Sound.{IsSound, views}
use ktable_fs.LocalFileSet.{LocalFile, FileSet, file_at, reopen, open_at, page_hash, slot}

-- Different pages have different hashes.
pub page_hash-injective :
    (k l i j : ℕ)
    → k < 2 ^ 24
    → l < 2 ^ 24
    → i < 2 ^ 40
    → j < 2 ^ 40
    → page_hash k i ≡ page_hash l j
    → (k ≡ l) × (i ≡ j)
unfolding page_hash
page_hash-injective k l i j hk hl hi hj e = (omega arith, omega arith)

pub copy_to-out :
    (memory : ℕ → ℕ) (to : ℕ) (d : List ℕ) (a : ℕ)
    → (a < to) ⊎ (to + length d ≤ a)
    → copy_to memory to d a ≡ memory a
unfolding copy_to
copy_to-out memory to d a (inl h) = ground arith
copy_to-out memory to d a (inr h) = ground arith

get_or-at : (d : List ℕ) (i : ℕ) {x : ℕ} → get_elem? d i ≡ some x → get_or d i 0 ≡ x
get_or-at [] i e = cc
get_or-at (y ∷ ys) zero e = cc
get_or-at (y ∷ ys) (suc i) e = get_or-at ys i e

pub copy_to-in :
    (memory : ℕ → ℕ) (to : ℕ) (d : List ℕ) (i : ℕ) {x : ℕ}
    → get_elem? d i ≡ some x
    → copy_to memory to d (to + i) ≡ x
unfolding copy_to
copy_to-in memory to d i e =
    let below = lt_of_get_elem? d i e in
    let back : to + i - to ≡ i = omega arith in
    ground (arith, ap (λ n. get_or d n 0) back, get_or-at d i e)

set-same : (fs : List LocalFile) (k : ℕ) (f : LocalFile) → get_elem? fs k ≡ some f → set fs k f ≡ fs
set-same [] k f at = refl
set-same (g ∷ fs) zero f at = ap (λ x. x ∷ fs) (sym (some-injective g f at))
set-same (g ∷ fs) (suc k) f at = ap (◌∷◌ g) (set-same fs k f at)

pub slot-suc : (k : ℕ) → k < 2 ^ 24 → slot (suc k) ≡ k
unfolding slot
slot-suc k h = omega arith

module _ (p : Posix) (name_of : p.Os → ℕ → Option FileName)
    (written : p.Os → FileName → ℕ → Option ℕ) where
  -- The page of an entry has the bytes of every file page with its hash.
  abbrev pub HasPage : FileSet p → View → Type 0
  HasPage s v =
      (k : ℕ) (f : LocalFile) (j b x : ℕ)
      → get_elem? s.files k ≡ some f
      → j < 2 ^ 19
      → v.hash ≡ page_hash (suc k) j
      → b < page_size
      → written s.os (FileName.path f.file_name) (j * page_size + b) ≡ some x
      → s.cache.memory (v.page + b) ≡ x

  -- The files are open and have different names; the pages that do not wait are up to date.
  pub record IsCoherent (s : FileSet p) : Type 0 where
    pub sound : IsSound s.cache
    pub few : length s.files < 2 ^ 24
    pub opened :
        (k : ℕ) (f : LocalFile)
        → get_elem? s.files k ≡ some f
        → (0 < f.fd) × (name_of s.os f.fd ≡ some (FileName.path f.file_name))
    pub names :
        (k l : ℕ) (f g : LocalFile)
        → get_elem? s.files k ≡ some f
        → get_elem? s.files l ≡ some g
        → f.file_name ≡ g.file_name
        → k ≡ l
    pub pages :
        (i : ℕ) (v : View) → get_elem? (views s.cache) i ≡ some v → v.wait ≡ false → HasPage s v

  module _ (s : FileSet p) (k : ℕ) (f : LocalFile) (co : IsCoherent s)
      (at : get_elem? s.files k ≡ some f) where
    pub file_at-open : file_at p s (suc k) ≡ ok f
    unfolding file_at
    file_at-open =
        let below = lt_of_get_elem? s.files k at in
        rw (slot-suc k (omega (arith, co.few)), file_at, at) refl

    pub open_at-open : open_at p s (suc k) ≡ ok s
    unfolding open_at reopen
    open_at-open =
        let below = lt_of_get_elem? s.files k at in
        let is_open : ltb 0 f.fd ≡ true = ground (arith, co.opened k f at) in
        rw
          (
            file_at-open,
            open_at,
            is_open,
            reopen,
            slot-suc k (omega (arith, co.few)),
            set-same s.files k f at,
          )
          refl
