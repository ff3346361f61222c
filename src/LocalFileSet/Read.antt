-- ===== src/LocalFileSet/Read.antt =====
-- Reads through the page cache (`LocalFileSet::Read` and `ReadSync` of lib/kvengine/local_fileset.cc):
-- they hand on what was written to the file, and keep the cache up to date.
use native.Mathlib.Decide.{dec_lt, ℕ_discrete}
use ktable_fs.Base.{
  ℕ, zero, suc, ◌+◌, ◌*◌, ◌/◌, ◌%◌, ◌^◌, ◌≤◌, ◌<◌, ◌≡◌, ◌≢◌, ◌⊎◌, inl, inr, refl, sym, ap, ◌∙◌,
  true, false, Option, some, arith, length, get_elem?, lt_of_get_elem?, set, get_elem?-set_self,
  get_elem?-set_ne, length-set, Result, ◌>>=◌,
}
use ktable_fs.Slice.{Slice}
use ktable_fs.Posix.{FileName, Posix, ByteLaws}
use ktable_fs.PageCache.{PageCache, page_size, copy_to, bytes_at}
use ktable_fs.PageCache.Views.{View, SameViews}
use ktable_fs.PageCache.Sound.{IsSound, views}
use ktable_fs.PageCache.Fresh.{Fresh, claimed}
use ktable_fs.LocalFileSet.{LocalFile, FileSet, new_aio, read, run_aio, page_hash, page_index}
use ktable_fs.LocalFileSet.Coherent.{IsCoherent, page_hash-injective, copy_to-out, copy_to-in}

-- A read as a worker makes it: the request, and its end with the bytes that it hands on.
unfoldable pub read_through :
    (p : Posix) → FileSet p → ℕ → ℕ → ℕ → Result (FileSet p × Option Slice)
read_through p s file size off = do (s1, aio) ← read p s file size off new_aio; run_aio p s1 aio

pub bytes_at-get :
    (memory : ℕ → ℕ) (a n i : ℕ) → i < n → get_elem? (bytes_at memory a n) i ≡ some (memory (a + i))
unfolding bytes_at
bytes_at-get memory a zero i h = absurd (omega arith)
bytes_at-get memory a (suc n) zero h = ap (λ x. some (memory x)) (omega arith)
bytes_at-get memory a (suc n) (suc i) h =
    let next : a + 1 + i ≡ a + suc i = omega arith in
    bytes_at-get memory (a + 1) n i (omega arith) ∙ ap (λ x. some (memory x)) next

-- A filled page.
abbrev pub filled : ℕ → ℕ → View
filled i hash = record { page = i * page_size; hash = hash; wait = false; valid = true }

module _ (c : PageCache) (hash i : ℕ) (c' : PageCache) (fr : Fresh c hash i c') (v : View) where
  -- The entries once the page of entry `i` is there.
  filled-old :
      (j : ℕ)
      → j ≢ i
      → get_elem? (set (views c') i (filled i hash)) j ≡ some v
      → get_elem? (views c') j ≡ some v
  filled-old j ne at = sym (get_elem?-set_ne (views c') (filled i hash) (λ e. ne (sym e))) ∙ at

  filled-new :
      (j : ℕ) → j ≡ i → get_elem? (set (views c') i (filled i hash)) j ≡ some v → v ≡ filled i hash
  filled-new j j≡i at =
      let there =
        get_elem?-set_self (views c') i (filled i hash) (lt_of_get_elem? (views c') i fr.new) in
      ground (arith, there, j≡i, at)

  -- Only the wait of an entry has changed.
  filled-claim :
      (j : ℕ)
      → get_elem? (set (views c') i (filled i hash)) j ≡ some v
      → (w : View) × (get_elem? (views c') j ≡ some w) × (w.page ≡ v.page) × (w.hash ≡ v.hash)
  filled-claim j at = elim (ℕ_discrete j i) [
    | no ne ↦ (v, filled-old j ne at, refl, refl)
    | yes j≡i ↦
        let same = filled-new j j≡i at in
        (
          claimed i hash,
          ap (get_elem? (views c')) j≡i ∙ fr.new,
          sym (ap (λ (x : View). x.page) same),
          sym (ap (λ (x : View). x.hash) same),
        )
  ]

filled-IsSound :
    (c : PageCache) (hash i : ℕ) (c' c3 : PageCache)
    → Fresh c hash i c'
    → views c3 ≡ set (views c') i (filled i hash)
    → c3.index ≡ c'.index
    → c3.used_page ≡ c'.used_page
    → IsSound c3
filled-IsSound c hash i c' c3 fr same index used = record {
  pages = λ j v at.
      let (w, w-at, page, eq) = filled-claim c hash i c' fr v j (rw same at at) in
      sym page ∙ fr.sound.pages j w w-at;
  used = used ∙ fr.sound.used ∙ sym (ap length same ∙ length-set (views c') i (filled i hash));
  unique = λ j l v w at at' eq.
      let (v', v-at, page, v-hash) = filled-claim c hash i c' fr v j (rw same at at) in
      let (w', w-at, page', w-hash) = filled-claim c hash i c' fr w l (rw same at at') in
      fr.sound.unique j l v' w' v-at w-at (v-hash ∙ eq ∙ sym w-hash);
  indexed = λ h j there.
      let (v, at, eq) = fr.sound.indexed h j (rw index at there) in
      elim (ℕ_discrete j i) [
        | no ne ↦
            (v, rw same (get_elem?-set_ne (views c') (filled i hash) (λ e. ne (sym e)) ∙ at), eq)
        | yes j≡i ↦
            let place =
              get_elem?-set_self (views c') i (filled i hash)
                (lt_of_get_elem? (views c') i fr.new) in
            (
              filled i hash,
              rw same (ap (get_elem? _) j≡i ∙ place),
              ground (arith, j≡i, at, fr.new, eq),
            )
      ];
}

module _ (p : Posix) (name_of : p.Os → ℕ → Option FileName)
    (written : p.Os → FileName → ℕ → Option ℕ) (laws : ByteLaws p name_of written) (s : FileSet p)
    (k : ℕ) (f : LocalFile) (co : IsCoherent p name_of written s)
    (at : get_elem? s.files k ≡ some f) (off : ℕ) (low : off < 2 ^ 31) where
  abbrev pub name : FileName
  name = FileName.path f.file_name

  abbrev pub hash : ℕ
  hash = page_hash (suc k) (page_index off)

  -- The bytes of the page of the file, as the system reads them.
  abbrev pub page_read : Slice
  page_read = p.pread s.os f.fd page_size (page_size * page_index off)

  -- The state in which a new entry has the page.
  pub after_fill :
      (c' : PageCache) (i : ℕ) (c2 c3 : PageCache)
      → SameViews s.cache c'
      → Fresh c' hash i c2
      → views c3 ≡ set (views c2) i (filled i hash)
      → c3.index ≡ c2.index
      → c3.used_page ≡ c2.used_page
      → c3.memory ≡ copy_to c2.memory (i * page_size) page_read
      → IsCoherent p name_of written (record s { cache = c3 })
  unfolding page_index
  after_fill c' i c2 c3 same fr new index used memory = record {
    sound = filled-IsSound c' hash i c2 c3 fr new index used;
    few = co.few;
    opened = co.opened;
    names = co.names;
    pages = λ j v v-at ready l g j' b x g-at j< eq b< w. elim (ℕ_discrete j i) [
      | yes j≡i ↦
          let is_new = filled-new c' hash i c2 fr v j j≡i (rw new at v-at) in
          new_page v is_new l g j' b x g-at j< eq b< w
      | no ne ↦
          let in_c2 = filled-old c' hash i c2 fr v j ne (rw new at v-at) in
          let before : get_elem? (views s.cache) j ≡ some v =
            rw same.views at (fr.old j v ne in_c2) in
          let page = co.sound.pages j v before in
          let short = laws.length-pread-le s.os f.fd page_size (page_size * page_index off) in
          ap (λ m. m (v.page + b)) memory
          ∙ copy_to-out c2.memory (i * page_size) page_read (v.page + b)
              (apart j b page_read ne b< short v page)
          ∙ ap (λ m. m (v.page + b)) (fr.memory ∙ same.memory)
          ∙ co.pages j v before ready l g j' b x g-at j< eq b< w
    ];
  }
    where
      apart :
          (j b : ℕ) (d : Slice)
          → j ≢ i
          → b < page_size
          → length d ≤ page_size
          → (v : View) → v.page ≡ j * page_size
          → (v.page + b < i * page_size) ⊎ (i * page_size + length d ≤ v.page + b)
      apart j b d ne b< short v page = elim (dec_lt j i) [
        | yes lt ↦ inl (omega arith)
        | no ge ↦ inr (omega arith)
      ]

      new_page :
          (v : View)
          → v ≡ filled i hash
          → (l : ℕ) (g : LocalFile) (j b x : ℕ) → get_elem? s.files l ≡ some g
          → j < 2 ^ 19
          → v.hash ≡ page_hash (suc l) j
          → b < page_size
          → written s.os (FileName.path g.file_name) (j * page_size + b) ≡ some x
          → c3.memory (v.page + b) ≡ x
      new_page v is_new l g j b x g-at j< eq b< w =
          let below = lt_of_get_elem? s.files k at in
          let below' = lt_of_get_elem? s.files l g-at in
          let (files, pages) =
            page_hash-injective (suc l) (suc k) j (off / page_size) (omega (arith, co.few))
              (omega (arith, co.few)) (omega arith) (omega arith)
              (sym eq ∙ ap (λ (x : View). x.hash) is_new) in
          let l≡k : l ≡ k = omega arith in
          let g≡f : g ≡ f = ground (arith, l≡k, g-at, at) in
          let place : j * page_size + b ≡ page_size * (off / page_size) + b = omega arith in
          let byte =
            laws.pread-written s.os name f.fd page_size (page_size * (off / page_size)) b
              (co.opened k f at).1 b<
              (ap (written s.os name) (sym place)
                ∙ ap
                    (λ (h : LocalFile).
                      written s.os (FileName.path h.file_name) (j * page_size + b))
                    (sym g≡f)
                ∙ w) in
          ap (λ m. m (v.page + b)) memory
          ∙ ap (λ (x : View). copy_to c2.memory (i * page_size) page_read (x.page + b)) is_new
          ∙ copy_to-in c2.memory (i * page_size) page_read b byte

  -- What is handed on from a page that is up to date.
  pub from_page :
      (s' : FileSet p) (i : ℕ) (v : View) (size : ℕ)
      → s'.files ≡ s.files
      → s'.os ≡ s.os
      → IsCoherent p name_of written s'
      → get_elem? (views s'.cache) i ≡ some v
      → v.wait ≡ false
      → v.hash ≡ hash
      → off % page_size + size ≤ page_size
      → (t x : ℕ) → t < size
      → written s.os name (off + t) ≡ some x
      → get_elem? (bytes_at s'.cache.memory (v.page + off % page_size) size) t ≡ some x
  unfolding page_index
  from_page s' i v size files os co' v-at ready v-hash inside t x t< w =
      let place : v.page + off % page_size + t ≡ v.page + (off % page_size + t) = omega arith in
      let pos : off / page_size * page_size + (off % page_size + t) ≡ off + t = omega arith in
      bytes_at-get s'.cache.memory (v.page + off % page_size) size t t<
      ∙ ap (λ a. some (s'.cache.memory a)) place
      ∙ ap some (
          co'.pages i v v-at ready k f (off / page_size) (off % page_size + t) x
            (ap (λ fs. get_elem? fs k) files ∙ at) (omega arith) v-hash (omega arith)
            (ap (λ (o : p.Os). written o name (off / page_size * page_size + (off % page_size + t)))
                os
              ∙ ap (written s.os name) pos
              ∙ w))
