-- ===== src/Fs/Names.antt =====
-- src/mknod.cc and src/lookup.cc over the map that the database implements.
use ktable_fs.Base.{ℕ, ◌≡◌, refl, true, none, some, Result, ok, All, inl, inr, Bool-cases}
use ktable_fs.Posix.{Posix}
use ktable_fs.Slice.{Slice}
use ktable_fs.Slice.Order.{equal_iff}
use ktable_fs.FileKey.{make_key, to_slice as key_slice}
use ktable_fs.File.{regular, is_regular, Entry, fuse_entry}
use ktable_fs.File.Format.{from_slice-to_slice_file}
use ktable_fs.Batch.{Request}
use ktable_fs.Worker.Map.{Map, answer, after}
use ktable_fs.Fs.{
  Fs, Handle, Action, reply, submit, Reply, err, entry, new_file, mknod, lookup, entry_callback,
  lookup_callback, is_error, is_dir,
}
use ktable_fs.Fs.Inodes.{IsSlot, new_file-IsFile}

-- An action over a map: the reply, and the map after it.
abbrev pub perform : Map → Action → Result Reply × Map
perform f (reply r) = (ok r, f)
perform f (submit r callback) =
    (callback (record { res = (answer f r).1; value = (answer f r).0 }), after f r)

abbrev name_key : Handle → Slice → Slice
name_key parent name = key_slice (make_key parent.file.st_ino name)

new_file-regular :
    (p : Posix) (fs : Fs p) (mode now : ℕ)
    → is_regular (new_file p fs regular mode now).0.type ≡ true
unfolding new_file
new_file-regular p fs mode now = elim (Bool-cases (is_dir mode)) [
  | inl t ↦ rw (new_file, t) refl
  | inr t ↦ rw (new_file, t) refl
]

-- While the free slots have numbers of 16 bits, `Mknod` of a name that the map does not have is
-- answered with the attributes of a new file, and a `Lookup` of the name in the map after it with
-- the same attributes.
pub mknod-lookup :
    (p : Posix) (blksize : ℕ) (fs : Fs p) (parent : Handle) (name : Slice) (mode now : ℕ) (f : Map)
    → All IsSlot fs.file_data.aggr_free
    → f (name_key parent name) ≡ none
    → (act : Action) × (fs' : Fs p) × (e : Entry) × (mknod p blksize fs parent name mode now
        ≡ ok (act, fs'))
      × ((perform f act).0 ≡ ok (entry e))
      × ((perform (perform f act).1 (lookup blksize parent name)).0 ≡ ok (entry e))
unfolding mknod lookup entry_callback lookup_callback is_error
mknod-lookup p blksize fs parent name mode now f slots free =
    let file = (new_file p fs regular mode now).0 in
    let (s, stored, _, back) =
      from_slice-to_slice_file file (new_file-IsFile p fs mode now slots) in
    (
      submit (Request.put (name_key parent name) s) (entry_callback blksize file),
      (new_file p fs regular mode now).1,
      fuse_entry blksize file,
      rw stored refl,
      rw free refl,
      rw
          (
            free,
            (equal_iff (name_key parent name) (name_key parent name)).1 refl,
            back,
            new_file-regular p fs mode now,
          )
          refl,
    )

-- While the free slots have numbers of 16 bits, `Mknod` of a name that the map has is answered
-- with the error EEXIST, 17, and leaves the map as it is.
pub mknod-exists :
    (p : Posix) (blksize : ℕ) (fs : Fs p) (parent : Handle) (name : Slice) (mode now : ℕ) (f : Map)
    (old : Slice)
    → All IsSlot fs.file_data.aggr_free
    → f (name_key parent name) ≡ some old
    → (act : Action) × (fs' : Fs p) × (mknod p blksize fs parent name mode now ≡ ok (act, fs'))
      × ((perform f act).0 ≡ ok (err 17))
      × ((j : Slice) → (perform f act).1 j ≡ f j)
unfolding mknod entry_callback is_error
mknod-exists p blksize fs parent name mode now f old slots taken =
    let file = (new_file p fs regular mode now).0 in
    let (s, stored, _, back) =
      from_slice-to_slice_file file (new_file-IsFile p fs mode now slots) in
    (
      submit (Request.put (name_key parent name) s) (entry_callback blksize file),
      (new_file p fs regular mode now).1,
      rw stored refl,
      rw taken refl,
      λ j. rw taken refl,
    )
