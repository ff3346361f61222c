-- ===== src/Slabs/Array.antt =====
-- Slabs of 1024 bytes in one file, each given out once and kept by its number: an implementation of
-- what a worker needs of its slabs.
use ktable_fs.Base.{
  ℕ, ◌+◌, ◌≤◌, ◌<◌, ◌≡◌, ◌≢◌, refl, true, [], ok, fault, thrown, leb, ◌==◌, if◌then◌else◌, arith,
  ◌∙◌, sym,
}
use mathlib.Core.List.{append-nil}
use ktable_fs.Slice.{Slice}
use ktable_fs.FileSlab.{Slab, item_size}
use ktable_fs.Slabs.{Slabs, Laws}

-- The number of slabs given out, and their contents.
pub record Array : Type 0 where
  pub used : ℕ
  pub contents : ℕ → Slice

abbrev pub empty_array : Array
empty_array = record { used = 0; contents = λ i. [] }

abbrev set_at : ℕ → Slice → (ℕ → Slice) → ℕ → Slice
set_at i d f j = if i == j then d else f j

abbrev pub array : Slabs
array = record {
  Store = Array;
  create = λ st key value.
      if leb (item_size key value) 1024
      then ok (record { size = 1024; file = 1; index = st.used }, record st { used = st.used + 1 })
      else fault thrown;
  free = λ st s. ok st;
  start_read = λ st s. ok (true, st);
  start_write = λ st s d. ok st;
  read_sync = λ st s. ok (st.contents s.index, st);
  slab_bytes = λ st s. st.contents s.index;
  finish_write = λ st s d good.
      if good then ok (record st { contents = set_at s.index d st.contents }) else fault thrown;
}

abbrev pub IsLive : Array → Slab → Type 0
IsLive st s = (s.size ≡ 1024) × (s.file ≡ 1) × (s.index < st.used)

apart_index : (s t : Slab) → s.size ≡ t.size → s.file ≡ t.file → s ≢ t → s.index ≢ t.index
apart_index s t h i ne e = ground arith

set_same : (i : ℕ) (d : Slice) (f : ℕ → Slice) → set_at i d f i ≡ d
set_same i d f = ground arith

new_kept :
    (st st' : Array) (key v : Slice) (s : Slab)
    → array.create st key v ≡ ok (s, st')
    → (item_size key v ≤ 1024)
      × (st' ≡ record st { used = st.used + 1 })
      × (s ≡ record { size = 1024; file = 1; index = st.used })
new_kept st st' key v s e = ground arith

kept :
    (st st' : Array) (s t : Slab) (d : Slice)
    → array.finish_write st s d true ≡ ok st'
    → s.index ≢ t.index
    → st'.contents t.index ≡ st.contents t.index
kept st st' s t d e ne = ground arith

pub array-Laws : Laws array IsLive IsLive
array-Laws = record {
  Live-IsSlab = λ st s h. h;
  header_fits = λ st s h. ground arith;
  create-fresh = λ st st' key v s e.
      let facts = new_kept st st' key v s e in
      (
        (ground (arith, facts), ground (arith, facts), ground (arith, facts)),
        ground (arith, facts),
        λ t h same. ground (arith, facts),
      );
  create-other = λ st st' key v s t e h.
      (ground (arith, new_kept st st' key v s e), ground (arith, new_kept st st' key v s e));
  free_ok = λ st s h. (st, refl, h);
  free-other = λ st st' s t e h ne. (ground (arith), ground (arith));
  read_ok = λ st s h. (true, st, refl);
  read-Live = λ st st' s t u e h. (ground arith, ground arith);
  sync_ok = λ st s h. (st, refl);
  sync-Live = λ st st' s t bytes e h. (ground arith, ground arith);
  start_ok = λ st s d h. (st, refl, h);
  start-Live = λ st st' s t d e h. (ground arith, ground arith);
  write_ok = λ st s d h short. (_, refl, ([], set_same s.index d st.contents ∙ sym (append-nil d)));
  write-Live = λ st st' s t d e h. ground arith;
  write-other = λ st st' s t d e h' short h ne.
      kept st st' s t d e (apart_index s t (ground arith) (ground arith) ne);
}
