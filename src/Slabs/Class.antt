-- ===== src/Slabs/Class.antt =====
-- A class of slabs of lib/kvengine/fileslab.cc in files, without the page cache: an implementation of
-- what a worker needs of its slabs. A slab is given out by `FileSlab.take_slab`, a freed one goes on the
-- free list, and a slab is at `slab_off` of its file. A file number that does not fit the 16 bits of a
-- slab and the free of a slab that is not in use are faults here, which the source does not look for.
pub mod Bytes
pub mod Members
pub mod Lawful
use mathlib.Core.Path.{subst}
use mathlib.Core.List.{append-nil, append_assoc}
use native.Mathlib.Decide.{dec_lt}
use ktable_fs.Base.{
  ℕ, ◌+◌, ◌*◌, ◌≤◌, ◌<◌, ◌^◌, ◌≡◌, ◌≢◌, ◌⊎◌, ◌∙◌, refl, sym, ap, inl, inr, Bool, true, false, List,
  [], ◌∷◌, ◌++◌, length, arith, Result, ok, fault, thrown, assert_failed, leb, if◌then◌else◌, ◌==◌,
  Bool-cases, All, Distinct, All-append_left, All-append_right, All-middle, All-back,
  Distinct-middle, Distinct-back,
}
use ktable_fs.Slice.{Slice}
use ktable_fs.FileSlab.{Slab, SingleFileSlab, SlabName, take_slab, item_size, slab_off}
use ktable_fs.FileSlab.Alloc.{Issued, Account, take_slab-Account, slab_off-disjoint}
use ktable_fs.Slabs.{Slabs, Laws}
use ktable_fs.Slabs.Class.Bytes.{read_bytes, write_bytes, read-write, read-write_other}
use ktable_fs.Slabs.Class.Members.{In, In-left, In-right, In-All, In-other, Place, place}

-- The class, the files, the slabs in use, and the bytes of each file.
pub record Files : Type 0 where
  pub slabs : SingleFileSlab
  pub set : List SlabName
  pub live : List Slab
  pub disk : ℕ → ℕ → ℕ
  pub account : Account slabs set live
  pub header : 8 ≤ slabs.slab_size

pub take_slab-slab_size :
    (c : SingleFileSlab) (set : List SlabName) → (take_slab c set).1.slab_size ≡ c.slab_size
unfolding take_slab
take_slab-slab_size c set = go c.free_slab refl
  where
    go : (slabs : List Slab) → c.free_slab ≡ slabs → (take_slab c set).1.slab_size ≡ c.slab_size
    go [] e = elim (Bool-cases (c.cur_slab == c.slab_per_file)) [
      | inl t ↦ rw (e, take_slab, t) refl
      | inr t ↦ rw (e, take_slab, t) refl
    ]
    go (s ∷ rest) e = rw (e, take_slab) refl

-- After `take_slab`.
abbrev pub taken : (st : Files) → length (take_slab st.slabs st.set).2 + 1 < 2 ^ 16 → Files
taken st room = record {
  slabs = (take_slab st.slabs st.set).1;
  set = (take_slab st.slabs st.set).2;
  live = (take_slab st.slabs st.set).0 ∷ st.live;
  disk = st.disk;
  account = take_slab-Account st.slabs st.set st.live st.account room;
  header = ground (arith, take_slab-slab_size st.slabs st.set, st.header);
}

-- After `FileSlab::Delete` of a slab in use.
pub freed_Account :
    (st : Files) (before : List Slab) (s : Slab) (behind : List Slab)
    → st.live ≡ before ++ (s ∷ behind)
    → Account
        (record st.slabs { free_slab = st.slabs.free_slab ++ (s ∷ []) })
        st.set
        (before ++ behind)
freed_Account st before s behind e = record {
  size = st.account.size;
  fits = st.account.fits;
  per_file = st.account.per_file;
  file = st.account.file;
  files = st.account.files;
  index = st.account.index;
  distinct = subst Distinct joined (
      Distinct-back (before ++ (behind ++ st.slabs.free_slab)) s [] (
        rw append-nil (
          Distinct-middle before s (behind ++ st.slabs.free_slab)
            (rw split at st.account.distinct))));
  issued = subst (All (Issued st.slabs st.set)) joined (
      All-back (Issued st.slabs st.set) (before ++ (behind ++ st.slabs.free_slab)) s [] (
        rw append-nil (
          All-middle (Issued st.slabs st.set) before s (behind ++ st.slabs.free_slab)
            (rw split at st.account.issued))));
}
  where
    split : st.live ++ st.slabs.free_slab ≡ before ++ (s ∷ (behind ++ st.slabs.free_slab))
    split = rw (e, append_assoc)

    joined :
        (before ++ (behind ++ st.slabs.free_slab)) ++ (s ∷ [])
        ≡ (before ++ behind) ++ (st.slabs.free_slab ++ (s ∷ []))
    joined = simp append_assoc

abbrev pub freed :
    (st : Files) (before : List Slab) (s : Slab) (behind : List Slab)
    → st.live ≡ before ++ (s ∷ behind)
    → Files
freed st before s behind e = record {
  slabs = record st.slabs { free_slab = st.slabs.free_slab ++ (s ∷ []) };
  set = st.set;
  live = before ++ behind;
  disk = st.disk;
  account = freed_Account st before s behind e;
  header = st.header;
}

unfoldable pub create_in :
    (st : Files) → Dec (length (take_slab st.slabs st.set).2 + 1 < 2 ^ 16) → Result (Slab × Files)
create_in st (yes room) = ok ((take_slab st.slabs st.set).0, taken st room)
create_in st (no full) = fault thrown

unfoldable pub create : Files → Slice → Slice → Result (Slab × Files)
unfolding create_in
create st key value =
    let made = create_in st (dec_lt (length (take_slab st.slabs st.set).2 + 1) (2 ^ 16)) in
    if leb (item_size key value) st.slabs.slab_size then made else fault thrown

unfoldable pub free_at : (st : Files) (s : Slab) → Place s st.live → Result Files
free_at st s (inl (before, behind, e)) = ok (freed st before s behind e)
free_at st s (inr out) = fault assert_failed

unfoldable pub free : Files → Slab → Result Files
unfolding free_at
free st s = free_at st s (place s st.live)

abbrev pub page : Files → Slab → Slice
page st s = read_bytes (st.disk s.file) (slab_off s) s.size

abbrev pub written : Files → Slab → Slice → Files
written st s d = record st {
  disk = λ n. if n == s.file then write_bytes (st.disk s.file) (slab_off s) d else st.disk n;
}

abbrev pub class : Slabs
class = record {
  Store = Files;
  create = create;
  free = free;
  start_read = λ st s. ok (true, st);
  read_sync = λ st s. ok (page st s, st);
  slab_bytes = page;
  start_write = λ st s d. ok st;
  finish_write = λ st s d good. if good then ok (written st s d) else ok st;
}

abbrev pub IsUsed : Files → Slab → Type 0
IsUsed st s = In s st.live

abbrev pub IsGiven : Files → Slab → Type 0
IsGiven st s = In s (st.live ++ st.slabs.free_slab)
