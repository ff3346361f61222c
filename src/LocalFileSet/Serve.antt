-- ===== src/LocalFileSet/Serve.antt =====
-- `LocalFileSet::Read` and `ReadSync` (lib/kvengine/local_fileset.cc) from the request to the bytes.
use ktable_fs.Base.{
  ℕ, suc, ◌+◌, ◌*◌, ◌/◌, ◌%◌, ◌^◌, ◌≤◌, ◌<◌, ◌≡◌, ◌≢◌, ◌⊎◌, List, refl, ap, ◌∙◌, true, false,
  Option, none, some, arith, length, get_elem?, lt_of_get_elem?, set, get_elem?-set_self, ltb,
  lt→ltb, ok, Ensures-ok,
}
use ktable_fs.Slice.{Slice}
use ktable_fs.Posix.{FileName, Posix, ByteLaws}
use ktable_fs.PageCache.{
  PageCache, Entry, page_size, lookup, new_entry, copy_to, bytes_at, load, modify, read_callback,
}
use ktable_fs.PageCache.Views.{View, view}
use ktable_fs.PageCache.Sound.{views, get_elem?-unmap, SameViews-IsSound, Answer, lookup-Answer}
use ktable_fs.PageCache.Fresh.{claimed, FreshFor, map-set-view, new_entry-Fresh}
use ktable_fs.LocalFileSet.{
  LocalFile, FileSet, new_aio, read, read_sync, carry_out, finish, run_aio, run_callbacks,
  page_hash, page_index, page_start,
}
use ktable_fs.LocalFileSet.Coherent.{IsCoherent, file_at-open, open_at-open}
use ktable_fs.LocalFileSet.Served.{Serves, hit, miss, serves}
use ktable_fs.PageCache.Lru.{IsLinked}
use ktable_fs.PageCache.Lookup.{IsIndexed}
use ktable_fs.LocalFileSet.Read.{read_through, filled, after_fill, from_page}

module _ (p : Posix) (name_of : p.Os → ℕ → Option FileName)
    (written : p.Os → FileName → ℕ → Option ℕ) (laws : ByteLaws p name_of written) (s : FileSet p)
    (k : ℕ) (f : LocalFile) (co : IsCoherent p name_of written s)
    (at : get_elem? s.files k ≡ some f) (size off : ℕ) (low : off < 2 ^ 31)
    (inside : off % page_size + size ≤ page_size)
    (ready : (i : ℕ) (v : View) → get_elem? (views s.cache) i ≡ some v → v.wait ≡ false) where
  abbrev name : FileName
  name = FileName.path f.file_name

  abbrev hash : ℕ
  hash = page_hash (suc k) (page_index off)

  abbrev page_read : Slice
  page_read = p.pread s.os f.fd page_size (page_size * page_index off)

  -- The bytes of a range, where they were written.
  abbrev HasBytes : Slice → Type 0
  HasBytes bytes =
      (t x : ℕ) → t < size → written s.os name (off + t) ≡ some x → get_elem? bytes t ≡ some x

  page_start-ok : page_start (page_index off) ≡ ok (page_size * page_index off)
  unfolding page_start page_index
  page_start-ok = ground (arith, lt→ltb (page_size * (off / page_size)) (2 ^ 31) (omega arith))

  -- The first byte of the range was written, so that the system reads something.
  page_read-some : {x : ℕ} → written s.os name off ≡ some x → 0 < length page_read
  unfolding page_index
  page_read-some first =
      let place : page_size * (off / page_size) + off % page_size ≡ off = omega arith in
      let byte =
        laws.pread-written s.os name f.fd page_size (page_size * (off / page_size))
          (off % page_size) (co.opened k f at).1 (omega arith)
          (ap (written s.os name) place ∙ first) in
      omega (arith, lt_of_get_elem? page_read (off % page_size) byte)

  -- A page that is there: the state, and the bytes.
  from_hit :
      (i : ℕ) (c' : PageCache)
      → lookup s.cache hash ≡ ok (some i, c')
      → (e : Entry) × (get_elem? c'.entries i ≡ some e)
        × IsCoherent p name_of written (record s { cache = c' })
        × HasBytes (bytes_at c'.memory (e.page + off % page_size) size)
  from_hit i c' found =
      let ((v, v-at, v-hash), same) =
        Ensures-ok (Answer s.cache hash) (lookup s.cache hash) found
          (lookup-Answer s.cache hash co.sound) in
      let v-at' : get_elem? (views c') i ≡ some v = rw same.views v-at in
      let (e, e-at, e-view) = get_elem?-unmap c'.entries i v v-at' in
      let co' : IsCoherent p name_of written (record s { cache = c' }) = record {
        sound = SameViews-IsSound s.cache c' same co.sound;
        few = co.few;
        opened = co.opened;
        names = co.names;
        pages = λ j w w-at free l g j' b x g-at j< eq b< is.
            ap (λ m. m (w.page + b)) same.memory
            ∙ co.pages j w (rw same.views at w-at) free l g j' b x g-at j< eq b< is;
      } in
      (
        e,
        e-at,
        co',
        λ t x t< w.
            ap (λ (u : View). get_elem? (bytes_at c'.memory (u.page + off % page_size) size) t)
              e-view
            ∙ from_page p name_of written laws s k f co at off low (record s { cache = c' }) i v
                size refl refl co' v-at' (ready i v v-at) v-hash inside t x t< w,
      )

  -- A page that is read into a new entry `e`, which becomes `e'`.
  from_miss :
      (c' : PageCache) (i : ℕ) (c2 : PageCache)
      → lookup s.cache hash ≡ ok (none, c')
      → ((j : ℕ) (v : View) → get_elem? (views s.cache) j ≡ some v → v.hash ≢ hash)
      → new_entry c' hash ≡ ok (i, c2)
      → (e : Entry) × (get_elem? c2.entries i ≡ some e)
        × (e.valid ≡ true)
        × ((e' : Entry)
            → view e' ≡ record { page = e.page; hash = e.hash; wait = false; valid = true }
            → let s' : FileSet p = record s {
              cache = record c2 {
                memory = copy_to c2.memory e.page page_read;
                entries = set c2.entries i e';
              };
            } in
              IsCoherent p name_of written s'
              × HasBytes (bytes_at s'.cache.memory (e.page + off % page_size) size))
  from_miss c' i c2 found absent new =
      let same =
        Ensures-ok (Answer s.cache hash) (lookup s.cache hash) found
          (lookup-Answer s.cache hash co.sound) in
      let fr = Ensures-ok (FreshFor c' hash) (new_entry c' hash) new (
        new_entry-Fresh c' hash (SameViews-IsSound s.cache c' same co.sound)
          (λ j v j-at. absent j v (rw same.views at j-at))) in
      let (e, e-at, e-view) = get_elem?-unmap c2.entries i (claimed i hash) fr.new in
      let page : e.page ≡ i * page_size = ap (λ (u : View). u.page) e-view in
      (
        e,
        e-at,
        ap (λ (u : View). u.valid) e-view,
        λ e' e'-view.
            let is_filled : view e' ≡ filled i hash =
              e'-view
              ∙ ap {B = View}
                  (λ (u : View). record {
                    page = u.page;
                    hash = u.hash;
                    wait = false;
                    valid = true;
                  })
                  e-view in
            let c3 = record c2 {
              memory = copy_to c2.memory e.page page_read;
              entries = set c2.entries i e';
            } in
            let new_views : views c3 ≡ set (views c2) i (filled i hash) =
              map-set-view c2.entries i e' ∙ ap (set (views c2) i) is_filled in
            let co3 =
              after_fill p name_of written laws s k f co at off low c' i c2 c3 same fr new_views
                refl refl (ap (λ q. copy_to c2.memory q page_read) page) in
            (
              co3,
              λ t x t< w.
                  ap (λ q. get_elem? (bytes_at c3.memory (q + off % page_size) size) t) page
                  ∙ from_page p name_of written laws s k f co at off low (record s { cache = c3 }) i
                      (filled i hash) size refl refl co3
                      (rw new_views (
                        get_elem?-set_self (views c2) i (filled i hash)
                          (lt_of_get_elem? (views c2) i fr.new)))
                      refl refl inside t x t< w,
            ),
      )

  -- A read once `Lookup` and `NewEntry` have served it.
  read_served :
      Serves s.cache hash
      → (first : ℕ) → written s.os name off ≡ some first
      → (s' : FileSet p) × (bytes : Slice) × (read_through p s (suc k) size off
          ≡ ok (s', some bytes))
        × IsCoherent p name_of written s'
        × ((t x : ℕ) → t < size → written s.os name (off + t) ≡ some x → get_elem? bytes t ≡ some x)
  unfolding read_through read run_aio carry_out finish new_aio run_callbacks read_callback load
      modify
  read_served (hit i c' found) first w =
      let (e, e-at, co', bytes) = from_hit i c' found in
      (
        record s { cache = c' },
        bytes_at c'.memory (e.page + off % page_size) size,
        rw (open_at-open p name_of written s k f co at, read, found) (rw (e-at, load) refl),
        co',
        bytes,
      )
  read_served (miss c' i c2 found absent new) first w =
      let (e, e-at, valid, after) = from_miss c' i c2 found absent new in
      let e' = record e { valid = true; wait = false } in
      let (co', bytes) = after e' refl in
      let some_read : ltb 0 (length page_read) ≡ true = lt→ltb 0 _ (page_read-some w) in
      (
        record s {
          cache = record c2 {
            memory = copy_to c2.memory e.page page_read;
            entries = set c2.entries i e';
          };
        },
        bytes_at (copy_to c2.memory e.page page_read) (e.page + off % page_size) size,
        rw
            (
              open_at-open p name_of written s k f co at,
              read,
              found,
              new,
              e-at,
              load,
              file_at-open p name_of written s k f co at,
              page_start-ok,
            )
            (rw (some_read, e-at, modify) refl),
        co',
        bytes,
      )

  read_sync_served :
      Serves s.cache hash
      → (first : ℕ) → written s.os name off ≡ some first
      → (s' : FileSet p) × (bytes : Slice) × (read_sync p s (suc k) size off ≡ ok (bytes, s'))
        × IsCoherent p name_of written s'
        × ((t x : ℕ) → t < size → written s.os name (off + t) ≡ some x → get_elem? bytes t ≡ some x)
  unfolding read_sync load modify
  read_sync_served (hit i c' found) first w =
      let (e, e-at, co', bytes) = from_hit i c' found in
      (
        record s { cache = c' },
        bytes_at c'.memory (e.page + off % page_size) size,
        rw (open_at-open p name_of written s k f co at, read_sync, found) (rw (e-at, load) refl),
        co',
        bytes,
      )
  read_sync_served (miss c' i c2 found absent new) first w =
      let (e, e-at, valid, after) = from_miss c' i c2 found absent new in
      let e' = record e { wait = false } in
      let (co', bytes) = after e' (
        ap {B = View} (λ x. record { page = e.page; hash = e.hash; wait = false; valid = x })
          valid) in
      let e'-at : get_elem? (set c2.entries i e') i ≡ some e' =
        get_elem?-set_self c2.entries i e' (lt_of_get_elem? c2.entries i e-at) in
      let some_read : ltb 0 (length page_read) ≡ true = lt→ltb 0 _ (page_read-some w) in
      (
        record s {
          cache = record c2 {
            memory = copy_to c2.memory e.page page_read;
            entries = set c2.entries i e';
          };
        },
        bytes_at (copy_to c2.memory e.page page_read) (e.page + off % page_size) size,
        rw
            (
              open_at-open p name_of written s k f co at,
              read_sync,
              found,
              new,
              e-at,
              load,
              file_at-open p name_of written s k f co at,
              page_start-ok,
            )
            (rw (some_read, e-at, modify, e'-at, load) refl),
        co',
        bytes,
      )

  -- In a state in which the pages of the cache are up to date with the files and none waits, its entries
  -- are in a list without cycles and in the index, and there is a page left or at least two entries: a
  -- read within a page, from an offset below 2^31 whose byte was written, which the system carries out,
  -- hands on bytes that have what was written to the range, from the cache or from the disk; the pages
  -- of the cache are up to date again.
  pub read-IsCoherent :
      (xs : List ℕ)
      → IsLinked s.cache xs
      → IsIndexed s.cache xs
      → ((ltb s.cache.used_page s.cache.max_page ≡ true) ⊎ (2 ≤ length xs))
      → (first : ℕ) → written s.os name off ≡ some first
      → (s' : FileSet p) × (bytes : Slice) × (read_through p s (suc k) size off
          ≡ ok (s', some bytes))
        × IsCoherent p name_of written s'
        × ((t x : ℕ) → t < size → written s.os name (off + t) ≡ some x → get_elem? bytes t ≡ some x)
  read-IsCoherent xs linked indexed room =
      read_served (serves s.cache xs hash linked indexed ready room)

  -- `ReadSync` of a range within a page, from an offset below 2^31 whose byte was written, in such a
  -- state: the pages of the cache are up to date with the files and none waits, its entries are in a list
  -- without cycles and in the index, and there is a page left or at least two entries. It hands on such
  -- bytes at once, and the pages of the cache are up to date again.
  pub read_sync-IsCoherent :
      (xs : List ℕ)
      → IsLinked s.cache xs
      → IsIndexed s.cache xs
      → ((ltb s.cache.used_page s.cache.max_page ≡ true) ⊎ (2 ≤ length xs))
      → (first : ℕ) → written s.os name off ≡ some first
      → (s' : FileSet p) × (bytes : Slice) × (read_sync p s (suc k) size off ≡ ok (bytes, s'))
        × IsCoherent p name_of written s'
        × ((t x : ℕ) → t < size → written s.os name (off + t) ≡ some x → get_elem? bytes t ≡ some x)
  read_sync-IsCoherent xs linked indexed room =
      read_sync_served (serves s.cache xs hash linked indexed ready room)
