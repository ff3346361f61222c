-- ===== src/Worker/Turns.antt =====
-- How a turn of a worker (lib/kvengine/worker.cc) runs on one request: with no io, or with one
-- operation, which is then finished.
use ktable_fs.Base.{
  ℕ, ◌<◌, ◌^◌, ◌≡◌, refl, Bool, true, false, none, some, List, [], ◌∷◌, ◌++◌, length, ok, sym,
  >>=-ok, ap, ==_iff, take, drop,
}
use mathlib.Core.Path.{subst}
use mathlib.Core.List.{append-nil}
use ktable_fs.Slice.{Slice}
use ktable_fs.FileSlab.{Slab, record_bytes, read_callback}
use ktable_fs.FileSlab.Format.{read_callback-record_bytes}
use ktable_fs.Batch.{Request, success, Batch, Finish, finish_request}
use ktable_fs.Slabs.{Slabs}
use ktable_fs.Worker.{
  Aio, Callback, pread, pwrite, Worker, turn, process_all, process_request, process, finish,
  finish_all, run_callback, is_success, finish_code, nothing,
}
use ktable_fs.Worker.Map.{complete}

module _ (m : Slabs) (w : Worker m) (w_idle : w.io_queue ≡ []) (b : Batch) (rs : List Request) where
  pub process_first :
      (r : Request) (w1 : Worker m) (fs : List Finish)
      → b.requests ≡ r ∷ rs
      → process m w (record b { requests = rs }) r ≡ ok (w1, fs)
      → process_all m w (b ∷ []) ≡ ok (w1, fs)
  unfolding process_all process_request
  process_first r w1 fs q e = >>=-ok _ _ (go b.requests q) (ap (λ gs. ok (w1, gs)) (append-nil fs))
    where
      go :
          (qs : List Request)
          → qs ≡ r ∷ rs
          → process_request m w (record { requests = qs; callback = b.callback }) ≡ ok (w1, fs)
      go qs h =
          subst
            (λ qs'.
              process_request m w (record { requests = qs'; callback = b.callback }) ≡ ok (w1, fs))
            (sym h) e

  -- A request that needs no io.
  pub turn_done :
      (r : Request) (f : Finish)
      → b.requests ≡ r ∷ rs
      → process m w (record b { requests = rs }) r ≡ ok (w, f ∷ [])
      → turn m complete w (b ∷ []) ≡ ok (record w { io_queue = [] }, f ∷ [])
  unfolding turn finish_all
  turn_done r f q e = >>=-ok _ _ (process_first r w (f ∷ []) q e) (>>=-ok _ _ none_left refl)
    where
      none_left : finish_all m w w.io_queue (complete w.io_queue) ≡ ok (w, [])
      none_left = subst (λ io. finish_all m w io (complete io) ≡ ok (w, [])) (sym w_idle) refl

  -- A request that starts one operation.
  pub turn_io :
      (r : Request) (w1 w2 : Worker m) (aio : Aio) (f : Finish)
      → b.requests ≡ r ∷ rs
      → process m w (record b { requests = rs }) r ≡ ok (w1, [])
      → w1.io_queue ≡ aio ∷ []
      → finish_all m w1 (aio ∷ []) (complete (aio ∷ [])) ≡ ok (w2, f ∷ [])
      → turn m complete w (b ∷ []) ≡ ok (record w2 { io_queue = [] }, f ∷ [])
  unfolding turn
  turn_io r w1 w2 aio f q e io g = >>=-ok _ _ (process_first r w1 [] q e) (
      >>=-ok _ _ (subst (λ xs. finish_all m w1 xs (complete xs) ≡ ok (w2, f ∷ [])) (sym io) g) refl)

  abbrev pub read_aio : Slab → Bool → Aio
  read_aio s submitted = record {
    op = pread;
    slab = s;
    callback = nothing;
    submit = submitted;
    batch = record b { requests = rs };
  }

  pub finish_read :
      (w1 : Worker m) (s : Slab) (submitted : Bool) (key v rest : Slice)
      → length key < 2 ^ 16
      → length v < 2 ^ 16
      → m.slab_bytes w1.store s ≡ record_bytes key v ++ rest
      → finish_all m w1 (read_aio s submitted ∷ []) (complete (read_aio s submitted ∷ []))
        ≡ ok (w1, finish_request (record b { requests = rs }) (some v) success ∷ [])
  unfolding finish_all complete finish is_success finish_code run_callback
  finish_read w1 s submitted key v rest h i e =
      let (size, off, found, back) = read_callback-record_bytes [] key v rest h i in
      go {size = size} {off = off} submitted (rw e found) (rw e back)
    where
      go :
          {size off : ℕ} (u : Bool)
          → read_callback (m.slab_bytes w1.store s) 0 ≡ ok (size, off)
          → take size (drop off (m.slab_bytes w1.store s)) ≡ v
          → finish_all m w1 (read_aio s u ∷ []) (complete (read_aio s u ∷ []))
            ≡ ok (w1, finish_request (record b { requests = rs }) (some v) success ∷ [])
      go true found back = rw (found, back)
      go false found back = rw (found, back)

  abbrev pub write_aio : Slab → Slice → Callback → Aio
  write_aio s d c = record {
    op = pwrite d;
    slab = s;
    callback = c;
    submit = true;
    batch = record b { requests = rs };
  }

  pub finish_write :
      (w1 : Worker m) (st : m.Store) (s : Slab) (d : Slice) (c : Callback)
      → m.finish_write w1.store s d true ≡ ok st
      → finish_all m w1 (write_aio s d c ∷ []) (complete (write_aio s d c ∷ []))
        ≡ ok (
          run_callback m c true (record w1 { store = st }),
          finish_request (record b { requests = rs }) none success ∷ [],
        )
  unfolding finish_all complete finish is_success finish_code
  finish_write w1 st s d c e = rw ((==_iff (length d) (length d)).1 refl, e)
