-- ===== src/LocalFileSet/Tests.antt =====
-- A file set with one file and a page of it in the cache (lib/kvengine/local_fileset.cc).
use mathlib.Core.Option.{some-injective}
use mathlib.Core.Path.{subst}
use ktable_fs.Base.{
  ℕ, zero, suc, ◌+◌, ◌*◌, ◌<◌, ◌≡◌, refl, inl, sym, ap, ◌∙◌, true, false, Option, none, some, [],
  ◌∷◌, arith, get_elem?, Result, ok, find, ◌>>=◌,
}
use ktable_fs.Slice.{Slice, equal, memcmp}
use ktable_fs.Posix.{FileName}
use ktable_fs.Posix.Disk.{Files, disk, disk-ByteLaws}
use ktable_fs.PageCache.{Entry, PageCache, page_size}
use ktable_fs.PageCache.Views.{View}
use ktable_fs.PageCache.Sound.{IsSound, views}
use ktable_fs.LocalFileSet.{LocalFile, FileSet, read_sync, create, open_named}
use ktable_fs.LocalFileSet.Coherent.{IsCoherent}
use ktable_fs.LocalFileSet.Write.{write_through, write-IsCoherent}
use ktable_fs.PageCache.Lru.{IsLinked}
use ktable_fs.PageCache.Lookup.{IsIndexed}
use ktable_fs.LocalFileSet.Read.{read_through}
use ktable_fs.LocalFileSet.Serve.{read-IsCoherent, read_sync-IsCoherent}

abbrev file : LocalFile
file = record { fd = 1; mode = 420; file_name = 97 ∷ [] }

-- Every byte of the file is 7.
abbrev files : Files
files = record { name = λ fd. some (FileName.path (97 ∷ [])); byte = λ m a. some 7 }

abbrev name_of : Files → ℕ → Option FileName
name_of os fd = os.name fd

abbrev written : Files → FileName → ℕ → Option ℕ
written os m a = os.byte m a

-- The page 0 of the file 1, or no page.
abbrev cached_page : PageCache
cached_page = record {
  newest = some 0;
  oldest = some 0;
  entries =
      record {
        page = 0;
        hash = 1099511627776;
        wait = false;
        prev = none;
        next = none;
        valid = true;
      }
      ∷ [];
  memory = λ a. 7;
  index = (1099511627776, 0) ∷ [];
  used_page = 1;
  max_page = 3;
}

abbrev no_page : PageCache
no_page = record {
  newest = none;
  oldest = none;
  entries = [];
  memory = λ a. 0;
  index = [];
  used_page = 0;
  max_page = 3;
}

abbrev set_with : PageCache → FileSet disk
set_with c = record { files = file ∷ []; directory = []; cache = c; os = files }

module _ {A : Type 0} where
  nowhere : (i : ℕ) {x : A} → get_elem? {A = A} [] i ≡ some x → ⊥
  nowhere i e = cc

  only : (a : A) (i : ℕ) {x : A} → get_elem? (a ∷ []) i ≡ some x → (i ≡ 0) × (a ≡ x)
  only a zero {x} e = (refl, some-injective a x e)
  only a (suc i) e = absurd (nowhere i e)

nothing_there : (h i : ℕ) → find h [] ≡ some i → ⊥
unfolding find
nothing_there h i e = cc

no_page-IsSound : IsSound no_page
no_page-IsSound = record {
  pages = λ i v at. absurd (nowhere i at);
  used = refl;
  unique = λ i j v w at at' e. absurd (nowhere i at);
  indexed = λ h i there. absurd (nothing_there h i there);
}

set-IsCoherent :
    (c : PageCache)
    → IsSound c
    → ((i : ℕ) (v : View) → get_elem? (views c) i ≡ some v → (b : ℕ) → c.memory (v.page + b) ≡ 7)
    → IsCoherent disk name_of written (set_with c)
set-IsCoherent c k same = record {
  sound = k;
  few = omega arith;
  opened = λ l f at.
      let same = (only file l at).1 in
      (
        subst (λ (g : LocalFile). 0 < g.fd) same (omega arith),
        ap (λ (g : LocalFile). some (FileName.path g.file_name)) same,
      );
  names = λ k l f g at at' e. (only file k at).0 ∙ sym (only file l at').0;
  pages = λ i v at ready l g j b x g-at j< eq b< w. same i v at b ∙ some-injective 7 x w;
}

abbrev shown : View
shown = record { page = 0; hash = 1099511627776; wait = false; valid = true }

the_page : (h i : ℕ) → find h cached_page.index ≡ some i → (1099511627776 ≡ h) × (0 ≡ i)
unfolding find
the_page h i e = (ground arith, ground arith)

cached_page-IsSound : IsSound cached_page
cached_page-IsSound = record {
  pages = λ i v at.
      let (i≡0, same) = only shown i at in
      ap (λ (x : View). x.page) (sym same) ∙ ap (λ n. n * page_size) (sym i≡0);
  used = refl;
  unique = λ i j v w at at' e. (only shown i at).0 ∙ sym (only shown j at').0;
  indexed = λ h i there.
      let (same, i≡0) = the_page h i there in
      (shown, ap (get_elem? (views cached_page)) (sym i≡0), same);
}

cached-IsCoherent : IsCoherent disk name_of written (set_with cached_page)
cached-IsCoherent = set-IsCoherent cached_page cached_page-IsSound (λ i v at b. refl)

empty-IsCoherent : IsCoherent disk name_of written (set_with no_page)
empty-IsCoherent = set-IsCoherent no_page no_page-IsSound (λ i v at b. absurd (nowhere i at))

-- Their lists and their indexes.
cached_page-IsLinked : IsLinked cached_page (0 ∷ [])
cached_page-IsLinked = record {
  newest = refl;
  oldest = refl;
  links = (_, refl, refl, refl, tt);
  distinct = (tt, tt);
  count = omega arith;
}

only_entry :
    (i : ℕ) (e : Entry)
    → get_elem? cached_page.entries i ≡ some e
    → (i ≡ 0) × (e.hash ≡ 1099511627776) × (e.valid ≡ true)
only_entry zero e at = ground arith
only_entry (suc i) e at = absurd (nowhere i at)

cached_page-IsIndexed : IsIndexed cached_page (0 ∷ [])
unfolding find
cached_page-IsIndexed = record {
  indexed =
      λ i e at. let (i≡0, same, valid) = only_entry i e at in (ground (arith, i≡0, same), valid);
  listed = λ h i there.
      let (same, i≡0) = the_page h i there in
      (_, ap (get_elem? cached_page.entries) (sym i≡0), same, inl (sym i≡0));
}

no_page-IsLinked : IsLinked no_page []
no_page-IsLinked = record {
  newest = refl;
  oldest = refl;
  links = tt;
  distinct = tt;
  count = omega arith;
}

no_page-IsIndexed : IsIndexed no_page []
no_page-IsIndexed = record {
  indexed = λ i e at. absurd (nowhere i at);
  listed = λ h i there. absurd (nothing_there h i there);
}

write-IsCoherent_example :
    (s' : FileSet disk) × (write_through disk (set_with cached_page) 1 (1 ∷ 2 ∷ []) 100 ≡ ok s')
    × IsCoherent disk name_of written s'
    × ((i : ℕ) → i < 2 → s'.os.byte (FileName.path (97 ∷ [])) (100 + i) ≡ get_elem? (1 ∷ 2 ∷ []) i)
write-IsCoherent_example =
    write-IsCoherent disk name_of written disk-ByteLaws (set_with cached_page) 0 file
      cached-IsCoherent refl (1 ∷ 2 ∷ []) 100 (omega arith) (omega arith) (0 ∷ [])
      cached_page-IsLinked cached_page-IsIndexed

read-IsCoherent_example :
    (s' : FileSet disk) × (bytes : Slice) × (read_through disk (set_with no_page) 1 2 100
      ≡ ok (s', some bytes))
    × IsCoherent disk name_of written s'
    × ((t x : ℕ) → t < 2 → some 7 ≡ some x → get_elem? bytes t ≡ some x)
read-IsCoherent_example =
    read-IsCoherent disk name_of written disk-ByteLaws (set_with no_page) 0 file empty-IsCoherent
      refl 2 100 (omega arith) (omega arith) (λ i v at. absurd (nowhere i at)) [] no_page-IsLinked
      no_page-IsIndexed (inl refl) 7 refl

read_sync-IsCoherent_example :
    (s' : FileSet disk) × (bytes : Slice) × (read_sync disk (set_with no_page) 1 2 100
      ≡ ok (bytes, s'))
    × IsCoherent disk name_of written s'
    × ((t x : ℕ) → t < 2 → some 7 ≡ some x → get_elem? bytes t ≡ some x)
read_sync-IsCoherent_example =
    read_sync-IsCoherent disk name_of written disk-ByteLaws (set_with no_page) 0 file
      empty-IsCoherent refl 2 100 (omega arith) (omega arith) (λ i v at. absurd (nowhere i at)) []
      no_page-IsLinked no_page-IsIndexed (inl refl) 7 refl

-- A file that was created in the directory `w` is not found under the name with which it was created.
open_created : Result (ℕ × ℕ)
open_created = do
  (n, s) ←
      create disk (record (set_with no_page) { files = []; directory = 119 ∷ [] }) (47 ∷ []) 420
  (m, s') ← open_named disk s (47 ∷ [])
  ok (n, m)

open_misses : open_created ≡ ok (1, 0)
unfolding open_created create open_named equal memcmp
open_misses = refl
