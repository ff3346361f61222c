-- ===== src/LocalFileSet/Write.antt =====
-- A write through the page cache (`LocalFileSet::Write` of lib/kvengine/local_fileset.cc), carried out
-- and finished: the cache stays up to date with the files.
use native.Mathlib.Decide.{dec_lt, ℕ_discrete}
use ktable_fs.Base.{
  ℕ, suc, ◌+◌, ◌-◌, ◌*◌, ◌/◌, ◌%◌, ◌^◌, ◌≤◌, ◌<◌, ◌≡◌, ◌≢◌, ◌⊎◌, inl, inr, refl, sym, ap, ◌∙◌,
  false, Option, some, List, [], ◌∷◌, arith, length, get_elem?, lt_of_get_elem?, ==-refl, Result,
  ok, ◌>>=◌, take, Ensures-ok,
}
use ktable_fs.Slice.{Slice}
use ktable_fs.Posix.{FileName, Posix, ByteLaws}
use ktable_fs.PageCache.{PageCache, page_size, lookup, copy_to, load, write_callback}
use ktable_fs.PageCache.Views.{View, SameViews}
use ktable_fs.PageCache.Sound.{
  views, get_elem?-unmap, SameViews-IsSound, IsSound-memory, Answer, lookup-Answer,
}
use ktable_fs.LocalFileSet.{
  LocalFile, FileSet, new_aio, write, carry_out, finish, run_aio, page_hash, page_index,
  run_callbacks, write_callbacks,
}
use ktable_fs.LocalFileSet.Served.{Looked, there, nowhere, looked}
use ktable_fs.PageCache.Lru.{IsLinked}
use ktable_fs.PageCache.Lookup.{IsIndexed}
use ktable_fs.LocalFileSet.Coherent.{
  IsCoherent, page_hash-injective, copy_to-out, copy_to-in, file_at-open, open_at-open,
}

take_all : (d : Slice) → take (length d) d ≡ d
take_all [] = refl
take_all (x ∷ d) = ap (◌∷◌ x) (take_all d)

-- A write as a worker makes it: the request, and its end.
unfoldable pub write_through : (p : Posix) → FileSet p → ℕ → Slice → ℕ → Result (FileSet p)
write_through p s file d off = do
  (s1, aio) ← write p s file d off new_aio
  (s2, handed) ← run_aio p s1 aio
  ok s2

module _ (p : Posix) (name_of : p.Os → ℕ → Option FileName)
    (written : p.Os → FileName → ℕ → Option ℕ) (laws : ByteLaws p name_of written) (s : FileSet p)
    (k : ℕ) (f : LocalFile) (co : IsCoherent p name_of written s)
    (at : get_elem? s.files k ≡ some f) (d : Slice) (off : ℕ) (low : off < 2 ^ 31)
    (inside : off % page_size + length d ≤ page_size) where
  abbrev name : FileName
  name = FileName.path f.file_name

  abbrev after : p.Os
  after = (p.pwrite s.os f.fd d off).1

  abbrev hash : ℕ
  hash = page_hash (suc k) (page_index off)

  -- The bytes of the file pages: those that are written, and the others.
  byte_in :
      (g : LocalFile) (l j b x : ℕ)
      → get_elem? s.files l ≡ some g
      → l ≡ k
      → off ≤ j * page_size + b
      → j * page_size + b < off + length d
      → written after (FileName.path g.file_name) (j * page_size + b) ≡ some x
      → get_elem? d (j * page_size + b - off) ≡ some x
  byte_in g l j b x g-at l≡k from to w =
      let g≡f : g ≡ f = ground (arith, l≡k, g-at, at) in
      let t : off + (j * page_size + b - off) ≡ j * page_size + b = omega arith in
      let law =
        laws.written-pwrite s.os name f.fd d off (j * page_size + b - off) (co.opened k f at).1
          (omega arith) in
      sym law
      ∙ ap (λ a. written after name a) t
      ∙ ap (λ (h : LocalFile). written after (FileName.path h.file_name) (j * page_size + b))
          (sym g≡f)
      ∙ w

  byte_out :
      (g : LocalFile) (l a x : ℕ)
      → get_elem? s.files l ≡ some g
      → (l ≢ k) ⊎ ((a < off) ⊎ (off + length d ≤ a))
      → written after (FileName.path g.file_name) a ≡ some x
      → written s.os (FileName.path g.file_name) a ≡ some x
  byte_out g l a x g-at h w =
      sym (
        laws.written-pwrite_other s.os name (FileName.path g.file_name) f.fd d off a
          (co.opened k f at).1 (apart h))
      ∙ w
    where
      apart :
          (l ≢ k) ⊎ ((a < off) ⊎ (off + length d ≤ a))
          → (name ≢ FileName.path g.file_name) ⊎ ((a < off) ⊎ (off + length d ≤ a))
      apart (inl ne) = inl (λ e. ne (co.names l k g f g-at at (cc)))
      apart (inr out) = inr out

  -- The state behind the write, from what the cache has in the range and outside it.
  after_write :
      (c' : PageCache) (memory : ℕ → ℕ)
      → SameViews s.cache c'
      → ((i : ℕ) (v : View) (t x : ℕ)
          → get_elem? (views s.cache) i ≡ some v
          → v.hash ≡ hash
          → get_elem? d t ≡ some x
          → memory (v.page + (off % page_size + t)) ≡ x)
      → ((i : ℕ) (v : View) (b : ℕ)
          → get_elem? (views s.cache) i ≡ some v
          → b < page_size
          → (v.hash ≢ hash) ⊎ ((b < off % page_size) ⊎ (off % page_size + length d ≤ b))
          → memory (v.page + b) ≡ s.cache.memory (v.page + b))
      → IsCoherent p name_of written
          (record s { cache = record c' { memory = memory }; os = after })
  unfolding page_index
  after_write c' memory same in_range outside = record {
    sound = IsSound-memory c' memory (SameViews-IsSound s.cache c' same co.sound);
    few = co.few;
    opened = λ l g g-at.
        let (positive, named) = co.opened l g g-at in
        (positive, laws.name-pwrite s.os f.fd g.fd d off ∙ named);
    names = co.names;
    pages = λ i v v-at ready l g j b x g-at j< eq b< w.
        let v-at' : get_elem? (views s.cache) i ≡ some v = rw same.views at v-at in
        by_place i v v-at' ready l g j b x g-at j< eq b< w;
  }
    where
      here :
          (l j : ℕ) (v : View)
          → suc l < 2 ^ 24
          → j < 2 ^ 19
          → v.hash ≡ page_hash (suc l) j
          → v.hash ≡ hash
          → (l ≡ k) × (j ≡ off / page_size)
      here l j v l< j< eq same_hash =
          let below = lt_of_get_elem? s.files k at in
          let (files, pages) =
            page_hash-injective (suc l) (suc k) j (off / page_size) l< (omega (arith, co.few))
              (omega arith) (omega arith) (sym eq ∙ same_hash) in
          (omega arith, pages)

      not_here :
          (l j b : ℕ) (v : View)
          → v.hash ≡ page_hash (suc l) j
          → v.hash ≢ hash
          → b < page_size
          → (l ≢ k) ⊎ ((j * page_size + b < off) ⊎ (off + length d ≤ j * page_size + b))
      not_here l j b v eq other b< = elim (ℕ_discrete l k) [
        | no l≢k ↦ inl l≢k
        | yes l≡k ↦ elim (dec_lt (j * page_size + b) off) [
          | yes before ↦ inr (inl before)
          | no from ↦ elim (dec_lt (j * page_size + b) (off + length d)) [
            | no behind ↦ inr (inr (omega arith))
            | yes to ↦
                let j≡ : j ≡ off / page_size = omega arith in
                absurd (other (eq ∙ ap (λ n. page_hash (suc n) j) l≡k ∙ ap (page_hash (suc k)) j≡))
          ]
        ]
      ]

      by_place :
          (i : ℕ) (v : View)
          → get_elem? (views s.cache) i ≡ some v
          → v.wait ≡ false
          → (l : ℕ) (g : LocalFile) (j b x : ℕ) → get_elem? s.files l ≡ some g
          → j < 2 ^ 19
          → v.hash ≡ page_hash (suc l) j
          → b < page_size
          → written after (FileName.path g.file_name) (j * page_size + b) ≡ some x
          → memory (v.page + b) ≡ x
      by_place i v v-at ready l g j b x g-at j< eq b< w =
          let below = lt_of_get_elem? s.files l g-at in
          let old =
            λ (h : (l ≢ k) ⊎ ((j * page_size + b < off) ⊎ (off + length d ≤ j * page_size + b))).
              co.pages i v v-at ready l g j b x g-at j< eq b<
                (byte_out g l (j * page_size + b) x g-at h w) in
          elim (ℕ_discrete v.hash hash) [
            | no other ↦ outside i v b v-at b< (inl other) ∙ old (not_here l j b v eq other b<)
            | yes same_hash ↦
                let (l≡k, j≡) = here l j v (omega (arith, co.few)) j< eq same_hash in
                elim (dec_lt (j * page_size + b) off) [
                  | yes before ↦
                      outside i v b v-at b< (inr (inl (omega arith))) ∙ old (inr (inl before))
                  | no from ↦ elim (dec_lt (j * page_size + b) (off + length d)) [
                    | no behind ↦
                        outside i v b v-at b< (inr (inr (omega arith)))
                        ∙ old (inr (inr (omega arith)))
                    | yes to ↦
                        let t = j * page_size + b - off in
                        let place : off % page_size + t ≡ b = omega arith in
                        ap (λ a. memory (v.page + a)) (sym place)
                        ∙ in_range i v t x v-at same_hash
                            (byte_in g l j b x g-at l≡k (omega arith) to w)
                  ]
                ]
          ]

  -- The copy of the written bytes into the page of the entry that `Lookup` found.
  after_copy :
      (i : ℕ) (v : View) (c' : PageCache)
      → SameViews s.cache c'
      → get_elem? (views s.cache) i ≡ some v
      → v.hash ≡ hash
      → IsCoherent p name_of written (record s {
        cache = record c' { memory = copy_to c'.memory (v.page + off % page_size) d };
        os = after;
      })
  after_copy i v c' same v-at v-hash =
      after_write c' (copy_to c'.memory (v.page + off % page_size) d) same
        (λ i' v' t x at' eq e.
          let i≡ = co.sound.unique i' i v' v at' v-at (eq ∙ sym v-hash) in
          let page : v'.page ≡ v.page =
            co.sound.pages i' v' at' ∙ ap (λ n. n * page_size) i≡ ∙ sym (co.sound.pages i v v-at) in
          let place : v'.page + (off % page_size + t) ≡ v.page + off % page_size + t =
            omega arith in
          ap (copy_to c'.memory (v.page + off % page_size) d) place
          ∙ copy_to-in c'.memory (v.page + off % page_size) d t e)
        (λ i' v' b at' b< h.
          copy_to-out c'.memory (v.page + off % page_size) d (v'.page + b)
            (elsewhere i' v' b at' b< h)
          ∙ ap (λ m. m (v'.page + b)) same.memory)
    where
      elsewhere :
          (i' : ℕ) (v' : View) (b : ℕ)
          → get_elem? (views s.cache) i' ≡ some v'
          → b < page_size
          → (v'.hash ≢ hash) ⊎ ((b < off % page_size) ⊎ (off % page_size + length d ≤ b))
          → (v'.page + b < v.page + off % page_size)
            ⊎ (v.page + off % page_size + length d ≤ v'.page + b)
      elsewhere i' v' b at' b< h =
          let page = co.sound.pages i v v-at in
          let page' = co.sound.pages i' v' at' in
          elim (ℕ_discrete i' i) [
            | no ne ↦ elim (dec_lt i' i) [ yes lt ↦ inl (omega arith) | no ge ↦ inr (omega arith) ]
            | yes i≡ ↦
                let eq : v'.hash ≡ v.hash = ground (arith, i≡, at', v-at) in
                elim h [
                  | inl other ↦ absurd (other (eq ∙ v-hash))
                  | inr (inl b-low) ↦ inl (omega arith)
                  | inr (inr b-high) ↦ inr (omega arith)
                ]
          ]

  -- The write after `Lookup` found the entry of the page, or nothing because there is none.
  write-Looked :
      Looked s.cache hash
      → (s' : FileSet p) × (write_through p s (suc k) d off ≡ ok s')
        × IsCoherent p name_of written s'
        × ((i : ℕ) → i < length d → written s'.os name (off + i) ≡ get_elem? d i)
  unfolding write_through write run_aio carry_out finish new_aio run_callbacks write_callbacks
      write_callback load
  write-Looked (there i c' found) =
      let ((v, v-at, v-hash), same) =
        Ensures-ok (Answer s.cache hash) (lookup s.cache hash) found
          (lookup-Answer s.cache hash co.sound) in
      let (e, e-at, e-view) = get_elem?-unmap c'.entries i v (rw same.views v-at) in
      let whole = take_all d in
      let complete = laws.pwrite_complete s.os name f.fd d off (co.opened k f at).1 in
      (
        record s {
          cache = record c' { memory = copy_to c'.memory (v.page + off % page_size) d };
          os = after;
        },
        rw
            (
              open_at-open p name_of written s k f co at,
              write,
              file_at-open p name_of written s k f co at,
              found,
            )
            (rw (whole, complete, ==-refl (length d), e-at, load, ← e-view) refl),
        after_copy i v c' same v-at v-hash,
        λ j j<. laws.written-pwrite s.os name f.fd d off j (co.opened k f at).1 j<,
      )
  write-Looked (nowhere c' found absent) =
      let same =
        Ensures-ok (Answer s.cache hash) (lookup s.cache hash) found
          (lookup-Answer s.cache hash co.sound) in
      let whole = take_all d in
      (
        record s { cache = c'; os = after },
        rw
            (
              open_at-open p name_of written s k f co at,
              write,
              file_at-open p name_of written s k f co at,
              found,
            )
            (rw whole refl),
        after_write c' c'.memory same (λ j v t x at' eq e. absurd (absent j v at' eq))
            (λ j v b at' b< h. ap (λ m. m (v.page + b)) same.memory),
        λ j j<. laws.written-pwrite s.os name f.fd d off j (co.opened k f at).1 j<,
      )

  -- In a state in which the pages of the cache are up to date with the files, and its entries are in a
  -- list without cycles and in the index, a write within a page and from an offset below 2^31, which the
  -- system carries out, succeeds: the file then has the bytes at their offset, and the pages of the
  -- cache are up to date again.
  pub write-IsCoherent :
      (xs : List ℕ)
      → IsLinked s.cache xs
      → IsIndexed s.cache xs
      → (s' : FileSet p) × (write_through p s (suc k) d off ≡ ok s')
        × IsCoherent p name_of written s'
        × ((i : ℕ) → i < length d → written s'.os name (off + i) ≡ get_elem? d i)
  write-IsCoherent xs linked indexed = write-Looked (looked s.cache xs hash linked indexed)
