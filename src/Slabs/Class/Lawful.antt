-- ===== src/Slabs/Class/Lawful.antt =====
-- A class of slabs of lib/kvengine/fileslab.cc has the laws that a worker relies on.
use mathlib.Core.Path.{subst}
use native.Mathlib.Decide.{dec_lt}
use ktable_fs.Base.{
  ℕ, ◌+◌, ◌≤◌, ◌<◌, ◌^◌, ◌≡◌, ◌≢◌, ◌⊎◌, ◌∙◌, refl, sym, ap, inl, inr, Bool, true, List, [], ◌∷◌,
  ◌++◌, length, arith, Result, ok, ok-injective, fault, leb, if◌then◌else◌, ◌==◌, ==_iff,
  Bool-cases, All, All-append_left, All-middle,
}
use ktable_fs.Slice.{Slice}
use ktable_fs.FileSlab.{Slab, take_slab, item_size, slab_off}
use ktable_fs.FileSlab.Alloc.{Issued, take_slab-Account, slab_off-disjoint}
use ktable_fs.Slabs.{Laws}
use ktable_fs.Slabs.Class.{
  Files, class, create, create_in, free, free_at, taken, freed, page, written, IsUsed, IsGiven,
  take_slab-slab_size,
}
use ktable_fs.Slabs.Class.Bytes.{read-write, read-write_other}
use ktable_fs.Slabs.Class.Members.{In, In-left, In-right, In-All, In-other, Place, place}

not_ok : {A : Type 0} {P : Type 0} {e : ktable_fs.Base.Fault} {a : A} → fault e ≡ ok a → P
not_ok h = cc

IsGiven-Issued : (st : Files) (s : Slab) → IsGiven st s → Issued st.slabs st.set s
IsGiven-Issued st s h =
    let (a, e, issued) =
      In-All (Issued st.slabs st.set) s (st.live ++ st.slabs.free_slab) st.account.issued h in
    subst (Issued st.slabs st.set) e issued

abbrev made : (st : Files) → length (take_slab st.slabs st.set).2 + 1 < 2 ^ 16 → Slab × Files
made st room = ((take_slab st.slabs st.set).0, taken st room)

create_in-taken :
    (st st' : Files) (s : Slab) (d : Dec (length (take_slab st.slabs st.set).2 + 1 < 2 ^ 16))
    → create_in st d ≡ ok (s, st')
    → (room : length (take_slab st.slabs st.set).2 + 1 < 2 ^ 16) × (made st room ≡ (s, st'))
unfolding create_in
create_in-taken st st' s (yes room) e = (room, ok-injective e)
create_in-taken st st' s (no full) e = not_ok e

create-taken :
    (st st' : Files) (key v : Slice) (s : Slab)
    → create st key v ≡ ok (s, st')
    → (item_size key v ≤ st.slabs.slab_size)
      × (room : length (take_slab st.slabs st.set).2 + 1 < 2 ^ 16) × (made st room ≡ (s, st'))
unfolding create
create-taken st st' key v s e = elim (Bool-cases (leb (item_size key v) st.slabs.slab_size)) [
  | inl t ↦
      let (room, same) = create_in-taken st st' s (dec_lt _ _) (rw (create, t) at e) in
      (ground (arith, t), room, same)
  | inr t ↦ not_ok (rw (create, t) at e)
]

-- A record that the slabs have room for gets one while the numbers of files fit 16 bits.
pub create-ok :
    (st : Files) (key v : Slice)
    → item_size key v ≤ st.slabs.slab_size
    → length (take_slab st.slabs st.set).2 + 1 < 2 ^ 16
    → (s : Slab) × (st' : Files) × (class.create st key v ≡ ok (s, st'))
unfolding create create_in
create-ok st key v fits room = rw (create, t) (go (dec_lt _ _))
  where
    t : leb (item_size key v) st.slabs.slab_size ≡ true
    t = ground arith

    go :
        (d : Dec (length (take_slab st.slabs st.set).2 + 1 < 2 ^ 16))
        → (s : Slab) × (st' : Files) × (create_in st d ≡ ok (s, st'))
    go (yes r) = (_, _, refl)
    go (no full) = absurd (full room)

created :
    (st st' : Files) (key v : Slice) (s : Slab)
    → class.create st key v ≡ ok (s, st')
    → IsUsed st' s × (item_size key v ≤ s.size) × ((t : Slab) → IsUsed st t → s ≢ t)
created st st' key v s e =
    let (fits, room, same) = create-taken st st' key v s e in
    let k = take_slab-Account st.slabs st.set st.live st.account room in
    let new = (take_slab st.slabs st.set).0 in
    subst
      (λ r. IsUsed r.1 r.0 × (item_size key v ≤ r.0.size) × ((t : Slab) → IsUsed st t → r.0 ≢ t))
      same
      (
        inl refl,
        ground (arith, fits, k.issued.0.0, take_slab-slab_size st.slabs st.set),
        λ t h e.
            let (a, a≡t, ne) =
              In-All (λ b. new ≢ b) t st.live
                (All-append_left (λ b. new ≢ b) st.live _ k.distinct.0) h in
            ne (e ∙ sym a≡t),
      )

created_other :
    (st st' : Files) (key v : Slice) (s t : Slab)
    → class.create st key v ≡ ok (s, st')
    → IsUsed st t
    → IsUsed st' t × (page st' t ≡ page st t)
created_other st st' key v s t e h =
    let (fits, room, same) = create-taken st st' key v s e in
    subst (λ r. IsUsed r.1 t × (page r.1 t ≡ page st t)) same (inr h, refl)

free_at-IsGiven :
    (st : Files) (s : Slab) (p : Place s st.live)
    → IsUsed st s
    → (st' : Files) × (free_at st s p ≡ ok st') × IsGiven st' s
unfolding free_at
free_at-IsGiven st s (inl (before, behind, e)) h = (
  freed st before s behind e,
  refl,
  In-right s (before ++ behind) _ (In-right s st.slabs.free_slab (s ∷ []) (inl refl)),
)
free_at-IsGiven st s (inr out) h = absurd (out h)

free_at-other :
    (st st' : Files) (s t : Slab) (p : Place s st.live)
    → free_at st s p ≡ ok st'
    → IsUsed st t
    → s ≢ t
    → IsUsed st' t × (page st' t ≡ page st t)
unfolding free_at
free_at-other st st' s t (inl (before, behind, split)) e h ne =
    subst (λ x. IsUsed x t × (page x t ≡ page st t)) (ok-injective e)
      (In-other t s before behind ne (subst (In t) split h), refl)
free_at-other st st' s t (inr out) e h ne = not_ok e

written_start :
    (st : Files) (s : Slab) (d : Slice)
    → length d ≤ s.size
    → (rest : Slice) × (page (written st s d) s ≡ d ++ rest)
written_start st s d short =
    let (rest, e) = read-write (st.disk s.file) (slab_off s) d s.size short in
    (rest, rw ((==_iff s.file s.file).1 refl) e)

written_other :
    (st : Files) (s t : Slab) (d : Slice)
    → IsGiven st s
    → length d ≤ s.size
    → IsUsed st t
    → s ≢ t
    → page (written st s d) t ≡ page st t
written_other st s t d given short used ne =
    let i = IsGiven-Issued st s given in
    let j = IsGiven-Issued st t (In-left t st.live st.slabs.free_slab used) in
    elim (Bool-cases (t.file == s.file)) [
      | inr u ↦ rw u refl
      | inl u ↦
          let same : t.file ≡ s.file = (==_iff t.file s.file).0 u in
          let apart =
            slab_off-disjoint st.slabs st.set s t st.account.fits (ground (arith, st.header)) i j
              (sym same) ne in
          rw u (
            read-write_other (st.disk s.file) (slab_off s) d (slab_off t) t.size (elim apart [
              | inl h ↦ inr (ground (arith, h, short, i.0))
              | inr h ↦ inl (ground (arith, h, j.0))
            ])
            ∙ rw same refl)
    ]

pub class-Laws : Laws class IsGiven IsUsed
unfolding free
class-Laws = record {
  Live-IsSlab = λ st s h. In-left s st.live st.slabs.free_slab h;
  header_fits = λ st s h. ground (arith, (IsGiven-Issued st s h).0, st.header);
  create-fresh = created;
  create-other = created_other;
  free_ok = λ st s h. free_at-IsGiven st s (place s st.live) h;
  free-other = λ st st' s t e h ne. free_at-other st st' s t (place s st.live) e h ne;
  read_ok = λ st s h. (true, st, refl);
  read-Live = λ st st' s t u e h.
      subst (λ x. IsUsed x t × (page x t ≡ page st t)) (ap (λ r. r.1) (ok-injective e)) (h, refl);
  sync_ok = λ st s h. (st, refl);
  sync-Live = λ st st' s t bytes e h.
      subst (λ x. IsUsed x t × (page x t ≡ page st t)) (ap (λ r. r.1) (ok-injective e)) (h, refl);
  start_ok = λ st s d h. (st, refl, h);
  start-Live = λ st st' s t d e h.
      subst (λ x. IsUsed x t × (page x t ≡ page st t)) (ok-injective e) (h, refl);
  write_ok = λ st s d h short. (written st s d, refl, written_start st s d short);
  write-Live = λ st st' s t d e h. subst (λ x. IsUsed x t) (ok-injective e) h;
  write-other = λ st st' s t d e given short h ne.
      subst (λ x. page x t ≡ page st t) (ok-injective e) (written_other st s t d given short h ne);
}
