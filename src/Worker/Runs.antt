-- ===== src/Worker/Runs.antt =====
-- Turns of lib/kvengine/worker.cc one after the other, as a step relation.
use mathlib.Core.Path.{fun_ext, subst}
use ktable_fs.Base.{◌≡◌, refl, sym, ap, ◌∙◌, List, [], ◌∷◌, ok, true, ok-injective}
use ktable_fs.Batch.{Request, Batch, Finish, finish_request}
use ktable_fs.FileSlab.{Slab}
use ktable_fs.Slabs.{Slabs, Laws}
use ktable_fs.Worker.{Worker, turn}
use ktable_fs.Worker.Map.{Map, answer, after, complete, view, IsValid, Fits}
use ktable_fs.Worker.Refines.{turn-refines}

-- A batch of one request, with a callback.
abbrev pub single : Request → Batch
single r = record { requests = r ∷ []; callback = true }

-- `Runs m w rs fs w'`: turns with the requests `rs`, each in a batch of its own and of a size that
-- fits, lead from `w` to `w'` and answer with `fs`.
pub data Runs (m : Slabs) : Worker m → List Request → List Finish → Worker m → Type 0 where
  stay : {w : Worker m} → Runs m w [] [] w
  step :
      {w w' w'' : Worker m} {r : Request} {rs : List Request} {f : Finish} {fs : List Finish}
      → Fits m w r
      → turn m complete w (single r ∷ []) ≡ ok (w', f ∷ [])
      → Runs m w' rs fs w''
      → Runs m w (r ∷ rs) (f ∷ fs) w''

-- The map after requests, and the answers to them.
unfoldable pub after_all : Map → List Request → Map
after_all f [] = f
after_all f (r ∷ rs) = after_all (after f r) rs

unfoldable pub answers : Map → List Request → List Finish
answers f [] = []
answers f (r ∷ rs) =
    finish_request (record { requests = []; callback = true }) (answer f r).0 (answer f r).1
    ∷ answers (after f r) rs

head_eq : {f g : Finish} {fs gs : List Finish} → f ∷ fs ≡ g ∷ gs → f ≡ g
head_eq {f} e = ap {B = Finish} (λ xs. elim xs [ [] ↦ f | x ∷ _ ↦ x ]) e

-- For slabs that have the laws of `Slabs.Laws`, which `Slabs.Class` has and the page cache has not in
-- every state: after any number of turns of a well-formed worker, where the system carries out each read and
-- write completely and each turn has one request, which is no scan and whose sizes fit, the worker
-- is well-formed, its answers are those of the map, one for each request and in order, and its map
-- is the map after the requests.
pub Runs-refine :
    (m : Slabs) (IsSlab Live : m.Store → Slab → Type 0) (l : Laws m IsSlab Live) (w w' : Worker m)
    (rs : List Request) (fs : List Finish)
    → IsValid m Live w
    → Runs m w rs fs w'
    → IsValid m Live w' × (fs ≡ answers (view m w) rs) × (view m w' ≡ after_all (view m w) rs)
unfolding after_all answers
Runs-refine m IsSlab Live l w w' [] [] k stay = (k, refl, refl)
Runs-refine m IsSlab Live l w w' [] (f ∷ fs) k run = elim run [ ]
Runs-refine m IsSlab Live l w w' (r ∷ rs) [] k run = elim run [ ]
Runs-refine m IsSlab Live l w w' (r ∷ rs) (f ∷ fs) k (step {w' = w1} fits turned more) =
    let (v, e, valid, views) = turn-refines m IsSlab Live l w (single r) r [] k refl fits in
    let both = ok-injective (sym e ∙ turned) in
    let same : v ≡ w1 = ap {B = Worker m} (λ x. x.0) both in
    let first = head_eq (ap {B = List Finish} (λ x. x.1) both) in
    let map_eq : view m w1 ≡ after (view m w) r =
      sym (ap {B = Map} (view m) same) ∙ fun_ext views in
    let (valid', answered, ended) =
      Runs-refine m IsSlab Live l w1 w' rs fs (subst (IsValid m Live) same valid) more in
    (
      valid',
      ap (◌∷◌ f) (answered ∙ ap (λ g. answers g rs) map_eq)
          ∙ ap (λ a. a ∷ answers (after (view m w) r) rs) (sym first),
      ended ∙ ap {B = Map} (λ g. after_all g rs) map_eq,
    )
