-- ===== src/Slabs.antt =====
-- What lib/kvengine/worker.cc needs of the slabs (lib/kvengine/fileslab.cc over
-- lib/kvengine/local_fileset.cc and the disk), as an interface, and the laws its clients rely on.
-- `Slabs.Array` and `Slabs.Class` are implementations.
pub mod Array
pub mod Class
use ktable_fs.Base.{◌∙◌, ℕ, ◌+◌, ◌≤◌, ◌<◌, ◌≡◌, ◌≢◌, Bool, true, List, ◌++◌, length, Result, ok}
use ktable_fs.Slice.{Slice}
use ktable_fs.FileSlab.{Slab, item_size}

pub record Slabs : Type 1 where
  pub Store : Type 0
  -- `FileSlab::Create`
  pub create : Store → Slice → Slice → Result (Slab × Store)
  -- `FileSlab::Delete`, less the write
  pub free : Store → Slab → Result Store
  -- `FileSlab::Read`: whether the read is submitted, because the page is not cached
  pub start_read : Store → Slab → Result (Bool × Store)
  -- `FileSlab::ReadSync`, up to the bytes of the slab
  pub read_sync : Store → Slab → Result (Slice × Store)
  -- the bytes of the page of a slab, from the slab on
  pub slab_bytes : Store → Slab → Slice
  -- `FileSlab::Write`, up to the submission of the write
  pub start_write : Store → Slab → Slice → Result Store
  -- the end of a write to a slab, with `Success()`
  pub finish_write : Store → Slab → Slice → Bool → Result Store

-- `Live` holds of the slabs in use, `IsSlab` of all that were given out.
pub record Laws (m : Slabs) (IsSlab Live : m.Store → Slab → Type 0) : Type 1 where
  pub Live-IsSlab : (st : m.Store) (s : Slab) → Live st s → IsSlab st s
  pub header_fits : (st : m.Store) (s : Slab) → IsSlab st s → 8 ≤ s.size
  -- A new slab has room for the record, and was not in use.
  pub create-fresh :
      (st st' : m.Store) (k v : Slice) (s : Slab)
      → m.create st k v ≡ ok (s, st')
      → Live st' s × (item_size k v ≤ s.size) × ((t : Slab) → Live st t → s ≢ t)
  pub create-other :
      (st st' : m.Store) (k v : Slice) (s t : Slab)
      → m.create st k v ≡ ok (s, st')
      → Live st t
      → Live st' t × (m.slab_bytes st' t ≡ m.slab_bytes st t)
  -- A slab in use can be freed, and the others stay as they are.
  pub free_ok :
      (st : m.Store) (s : Slab)
      → Live st s
      → (st' : m.Store) × (m.free st s ≡ ok st') × IsSlab st' s
  pub free-other :
      (st st' : m.Store) (s t : Slab)
      → m.free st s ≡ ok st'
      → Live st t
      → s ≢ t
      → Live st' t × (m.slab_bytes st' t ≡ m.slab_bytes st t)
  -- Reads of a slab in use come to an end, and change no slab in use.
  pub read_ok :
      (st : m.Store) (s : Slab)
      → Live st s
      → (u : Bool) × (st' : m.Store) × (m.start_read st s ≡ ok (u, st'))
  pub read-Live :
      (st st' : m.Store) (s t : Slab) (u : Bool)
      → m.start_read st s ≡ ok (u, st')
      → Live st t
      → Live st' t × (m.slab_bytes st' t ≡ m.slab_bytes st t)
  pub sync_ok :
      (st : m.Store) (s : Slab)
      → Live st s
      → (st' : m.Store) × (m.read_sync st s ≡ ok (m.slab_bytes st s, st'))
  pub sync-Live :
      (st st' : m.Store) (s t : Slab) (bytes : Slice)
      → m.read_sync st s ≡ ok (bytes, st')
      → Live st t
      → Live st' t × (m.slab_bytes st' t ≡ m.slab_bytes st t)
  -- A write to a slab can be started, which changes no slab in use.
  pub start_ok :
      (st : m.Store) (s : Slab) (d : Slice)
      → IsSlab st s
      → (st' : m.Store) × (m.start_write st s d ≡ ok st') × IsSlab st' s
  pub start-Live :
      (st st' : m.Store) (s t : Slab) (d : Slice)
      → m.start_write st s d ≡ ok st'
      → Live st t
      → Live st' t × (m.slab_bytes st' t ≡ m.slab_bytes st t)
  -- A write that succeeds and fits the slab changes the start of this slab alone.
  pub write_ok :
      (st : m.Store) (s : Slab) (d : Slice)
      → IsSlab st s
      → length d ≤ s.size
      → (st' : m.Store) × (m.finish_write st s d true ≡ ok st')
        × ((rest : Slice) × (m.slab_bytes st' s ≡ d ++ rest))
  pub write-Live :
      (st st' : m.Store) (s t : Slab) (d : Slice)
      → m.finish_write st s d true ≡ ok st'
      → Live st t
      → Live st' t
  pub write-other :
      (st st' : m.Store) (s t : Slab) (d : Slice)
      → m.finish_write st s d true ≡ ok st'
      → IsSlab st s
      → length d ≤ s.size
      → Live st t
      → s ≢ t
      → m.slab_bytes st' t ≡ m.slab_bytes st t

-- A write from its start to its end.
pub record Write (m : Slabs) (Live : m.Store → Slab → Type 0) (st : m.Store) (s : Slab) (d : Slice)
    : Type 0 where
  pub begun : m.Store
  pub done : m.Store
  pub started : m.start_write st s d ≡ ok begun
  pub finished : m.finish_write begun s d true ≡ ok done
  pub start : (rest : Slice) × (m.slab_bytes done s ≡ d ++ rest)
  pub live : (t : Slab) → Live st t → Live done t
  pub other : (t : Slab) → Live st t → s ≢ t → m.slab_bytes done t ≡ m.slab_bytes st t

pub write_lem :
    (m : Slabs) (IsSlab Live : m.Store → Slab → Type 0)
    → Laws m IsSlab Live
    → (st : m.Store) (s : Slab) (d : Slice) → IsSlab st s
    → length d ≤ s.size
    → Write m Live st s d
write_lem m IsSlab Live l st s d issued short =
    let (st0, started, issued0) = l.start_ok st s d issued in
    let (st', finished, rest) = l.write_ok st0 s d issued0 short in
    record {
      begun = st0;
      done = st';
      started = started;
      finished = finished;
      start = rest;
      live = λ t alive.
          l.write-Live st0 st' s t d finished (l.start-Live st st0 s t d started alive).0;
      other = λ t alive ne.
          let (alive0, same) = l.start-Live st st0 s t d started alive in
          l.write-other st0 st' s t d finished issued0 short alive0 ne ∙ same;
    }
