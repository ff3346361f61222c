-- ===== src/Worker/Quiet.antt =====
-- The requests that change nothing (lib/kvengine/worker.cc): a key that is not there, a `put` of one that is
-- there, and each `get`.
use ktable_fs.Base.{◌≡◌, refl, inl, inr, ◌∙◌, none, some, List, [], ◌∷◌, ok, Bool-cases, sym}
use ktable_fs.Slice.{Slice, equal}
use ktable_fs.Slice.Order.{equal_iff}
use ktable_fs.KeyMap.{find}
use ktable_fs.FileSlab.{Slab}
use ktable_fs.Batch.{Request, get, put, update, delete, Batch, finish_request}
use ktable_fs.Slabs.{Slabs, Laws}
use ktable_fs.Worker.{Worker, turn, process, start_read, io_enqueue}
use ktable_fs.Worker.Map.{answer, after, complete, view, IsValid}
use ktable_fs.Worker.Change.{view_hit, view_miss, stored, stored-IsValid, stored-view}
use ktable_fs.Worker.Turns.{turn_done, turn_io, read_aio, finish_read}

module _ (m : Slabs) (IsSlab Live : m.Store → Slab → Type 0) (l : Laws m IsSlab Live) (w : Worker m)
    (k : IsValid m Live w) (b : Batch) (rs : List Request) where
  -- What the theorem says of a request.
  abbrev pub Implements : Request → Type 0
  Implements r =
      (w' : Worker m) × (turn m complete w (b ∷ [])
        ≡ ok (
          w',
          finish_request (record b { requests = rs }) (answer (view m w) r).0
                (answer (view m w) r).1
              ∷ [],
        ))
      × IsValid m Live w'
      × ((j : Slice) → view m w' j ≡ after (view m w) r j)

  -- The worker after a turn that changed nothing.
  pub same : Worker m
  same = record w { io_queue = [] }

  pub same-IsValid : IsValid m Live same
  unfolding same
  same-IsValid = record { idle = refl; own = k.own; live = k.live; holds = k.holds }

  pub get_miss :
      (key : Slice) → b.requests ≡ get key ∷ rs → find key w.index ≡ none → Implements (get key)
  unfolding process same view
  get_miss key q e = (
    same,
    rw (view_miss m Live w k key e) (turn_done m w k.idle b rs (get key) _ q (rw (e, process))),
    same-IsValid,
    λ j. refl,
  )

  pub get_hit :
      (key : Slice) (s : Slab)
      → b.requests ≡ get key ∷ rs
      → find key w.index ≡ some s
      → Implements (get key)
  unfolding process start_read io_enqueue
  get_hit key s q e =
      let (v, rest, h, i, bytes_eq, hit) = view_hit m Live w k key s e in
      let (u, st', started) = l.read_ok w.store s (k.live key s e) in
      let kept =
        λ (t : Slab) (alive : Live w.store t). l.read-Live w.store st' s t u started alive in
      let aio = read_aio m w k.idle b rs s u in
      let w1 : Worker m = record { index = w.index; store = st'; io_queue = aio ∷ [] } in
      (
        stored m Live w k st' kept,
        rw hit (
            turn_io m w k.idle b rs (get key) w1 w1 aio _ q
              (rw (e, process, start_read, started, io_enqueue, k.idle) refl) refl
              (finish_read m w k.idle b rs w1 s u key v rest h i
                ((kept s (k.live key s e)).1 ∙ bytes_eq))),
        stored-IsValid m Live w k st' kept,
        stored-view m Live w k st' kept,
      )

  pub update_miss :
      (key v : Slice)
      → b.requests ≡ update key v ∷ rs
      → find key w.index ≡ none
      → Implements (update key v)
  unfolding process same view
  update_miss key v q e = (
    same,
    rw (view_miss m Live w k key e)
        (turn_done m w k.idle b rs (update key v) _ q (rw (e, process))),
    same-IsValid,
    λ j. rw (view_miss m Live w k key e),
  )

  pub delete_miss :
      (key : Slice)
      → b.requests ≡ delete key ∷ rs
      → find key w.index ≡ none
      → Implements (delete key)
  unfolding process same view
  delete_miss key q e = (
    same,
    rw (view_miss m Live w k key e) (turn_done m w k.idle b rs (delete key) _ q (rw (e, process))),
    same-IsValid,
    λ j. elim (Bool-cases (equal key j)) [
      | inl t ↦ rw (t, sym ((equal_iff key j).0 t)) (view_miss m Live w k key e)
      | inr t ↦ rw t
    ],
  )

  pub put_hit :
      (key v : Slice) (s : Slab)
      → b.requests ≡ put key v ∷ rs
      → find key w.index ≡ some s
      → Implements (put key v)
  unfolding process same view
  put_hit key v s q e =
      let (v', rest, h, i, bytes_eq, hit) = view_hit m Live w k key s e in
      (
        same,
        rw hit (turn_done m w k.idle b rs (put key v) _ q (rw (e, process))),
        same-IsValid,
        λ j. rw hit,
      )
