-- ===== src/FileData/Slots.antt =====
-- `FileData::Create` and `FileData::Delete` (src/file_data.cc): no slot has two owners.
use mathlib.Core.List.{append_assoc, append-nil}
use mathlib.Core.Path.{subst}
use ktable_fs.Base.{
  ℕ, ◌+◌, ◌≤◌, ◌<◌, ◌^◌, ◌≡◌, ◌≢◌, ◌⊎◌, refl, List, [], ◌∷◌, ◌++◌, arith, All, NotIn, Distinct,
  All-map, All-middle, All-back, Distinct-middle, Distinct-back, Bool-cases, ◌==◌, inl, inr,
  Option-cases, find, erase, none, find-erase, ==_iff,
}
use ktable_fs.Posix.{Posix}
use ktable_fs.FileData.{Aggr, LocalFile, FileData, create, delete}

-- A slot that `Create` has given out at some time.
abbrev pub Issued : FileData → Aggr → Type 0
Issued d a =
    (0 < a.file)
    × (a.no < 2 ^ 16)
    × ((a.file < d.cur_aggr_file) ⊎ ((a.file ≡ d.cur_aggr_file) × (a.no ≤ d.cur_aggr_index)))

-- The slots in use, `live`, and the free ones are all different.
pub record Account (d : FileData) (live : List Aggr) : Type 0 where
  pub index : d.cur_aggr_index ≤ 0x10000
  pub started : d.cur_aggr_file ≡ 0 → d.cur_aggr_index ≡ 0x10000
  pub distinct : Distinct (live ++ d.aggr_free)
  pub issued : All (Issued d) (live ++ d.aggr_free)

NotIn-of_All :
    (P : Aggr → Type 0) (a : Aggr)
    → ((b : Aggr) → P b → a ≢ b)
    → (xs : List Aggr) → All P xs
    → NotIn a xs
NotIn-of_All P a f xs h = All-map P f xs h

module _ (p : Posix) (d : FileData) (os : p.Os) (live : List Aggr) (k : Account d live) where
  create_freed :
      (a : Aggr) (rest : List Aggr)
      → d.aggr_free ≡ a ∷ rest
      → Account (create p d os).1 ((create p d os).0 ∷ live)
  unfolding create
  create_freed a rest e =
      rw (e, create)
        (record {
          index = k.index;
          started = k.started;
          distinct = Distinct-middle live a rest (rw e at k.distinct);
          issued = All-middle (Issued d) live a rest (rw e at k.issued);
        })

  create_new :
      d.aggr_free ≡ []
      → d.cur_aggr_file + 1 < 2 ^ 16
      → d.cur_aggr_index ≢ 0xffff
      → Account (create p d os).1 ((create p d os).0 ∷ live)
  unfolding create
  create_new e small inner = elim (Bool-cases (d.cur_aggr_index == 0x10000)) [
    | inl t ↦
        rw (e, create, t)
          (record {
            index = omega arith;
            started = λ z. absurd (omega arith);
            distinct = (All-map (Issued d) (λ b h c. ground arith) _ k.issued, k.distinct);
            issued = (ground arith, All-map (Issued d) (λ b h. ground arith) _ k.issued);
          })
    | inr t ↦
        rw (e, create, t)
          (record {
            index = ground arith;
            started = λ z. absurd (ground (arith, k.started));
            distinct = (All-map (Issued d) (λ b h c. ground arith) _ k.issued, k.distinct);
            issued =
                (ground (arith, k.started), All-map (Issued d) (λ b h. ground arith) _ k.issued);
          })
  ]

  -- `Create` gives out a slot that nobody has, unless it counts past the 16 bits of `aggr_t`.
  pub create-Account :
      d.cur_aggr_file + 1 < 2 ^ 16
      → d.cur_aggr_index ≢ 0xffff
      → Account (create p d os).1 ((create p d os).0 ∷ live)
  unfolding create
  create-Account small inner = go d.aggr_free refl
    where
      go :
          (free : List Aggr)
          → d.aggr_free ≡ free
          → Account (create p d os).1 ((create p d os).0 ∷ live)
      go [] e = create_new e small inner
      go (a ∷ rest) e = create_freed a rest e

  -- `Delete` of a file takes its slot out of use, whichever it is, and puts it behind the free
  -- slots, so that all slots are different as before; the file has no large file any more.
  pub delete-Account :
      (before : List Aggr) (a : Aggr) (behind : List Aggr) (ino : ℕ)
      → live ≡ before ++ (a ∷ behind)
      → Account (delete p d os a ino).0 (before ++ behind)
        × ((delete p d os a ino).0.aggr_free ≡ d.aggr_free ++ (a ∷ []))
        × (find ino (delete p d os a ino).0.large_files ≡ none)
  unfolding delete
  delete-Account before a behind ino e = elim (Option-cases (find ino d.large_files)) [
    | inl t ↦ rw (t, delete) (moved d.large_files, refl, t)
    | inr (f, t) ↦
        rw (t, delete)
          (moved (erase ino d.large_files), refl, rw (find-erase, (==_iff ino ino).1 refl) refl)
  ]
    where
      split : live ++ d.aggr_free ≡ before ++ (a ∷ (behind ++ d.aggr_free))
      split = rw (e, append_assoc)

      joined :
          (before ++ (behind ++ d.aggr_free)) ++ (a ∷ [])
          ≡ (before ++ behind) ++ (d.aggr_free ++ (a ∷ []))
      joined = simp append_assoc

      moved :
          (l : List (ℕ × LocalFile))
          → Account
              (record d { large_files = l; aggr_free = d.aggr_free ++ (a ∷ []) })
              (before ++ behind)
      moved l = record {
        index = k.index;
        started = k.started;
        distinct = subst Distinct joined (
            Distinct-back (before ++ (behind ++ d.aggr_free)) a [] (
              rw append-nil
                (Distinct-middle before a (behind ++ d.aggr_free) (rw split at k.distinct))));
        issued = subst (All (Issued d)) joined (
            All-back (Issued d) (before ++ (behind ++ d.aggr_free)) a [] (
              rw append-nil
                (All-middle (Issued d) before a (behind ++ d.aggr_free) (rw split at k.issued))));
      }
