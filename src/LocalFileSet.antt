-- ===== src/LocalFileSet.antt =====
-- lib/kvengine/local_fileset.h and lib/kvengine/local_fileset.cc: the files of the slabs of one worker,
-- read and written through the page cache. The requests to the system are those of lib/kvengine/aio.h.
mod Coherent
mod Write
mod Read
mod Serve
mod Served
mod Tests
use ktable_fs.Base.{
  ℕ, zero, suc, ◌+◌, ◌-◌, ◌*◌, ◌/◌, ◌%◌, ◌^◌, Bool, true, false, Option, none, some, List, [], ◌∷◌,
  ◌++◌, ltb, ◌==◌, if◌then◌else◌, length, get_elem?, set, take, u32, u64, Result, ok, fault,
  out_of_range, overflow, assert, ◌>>=◌, ◌>>◌,
}
use ktable_fs.Slice.{Slice, equal}
use ktable_fs.Posix.{FileName, Posix}
use ktable_fs.Worker.{Operation, Event, is_success}
use ktable_fs.PageCache.{
  PageCache, Entry, page_size, new_cache, load, modify, lookup, new_entry, copy_to, bytes_at,
  write_callback, read_callback,
}

-- `LocalFileSet::LocalFile`; a `fd` of 0 is closed.
pub record LocalFile : Type 0 where
  pub fd : ℕ
  pub mode : ℕ
  pub file_name : Slice

-- `PageHash_`
unfoldable pub page_hash : ℕ → ℕ → ℕ
page_hash file index = u64 (u64 (file * 2 ^ 40) + index)

-- A slab starts below 2^32, so that an `int` holds the number of its page.
unfoldable pub page_index : ℕ → ℕ
page_index off = off / page_size

-- `PageCache::PAGE_SIZE * page_index`, a product of two numbers of type `int`.
unfoldable pub page_start : ℕ → Result ℕ
page_start index =
    if ltb (page_size * index) (2 ^ 31) then ok (page_size * index) else fault overflow

-- `file - 1`: the difference of two numbers of type `unsigned int` wraps.
unfoldable pub slot : ℕ → ℕ
slot file = u32 (file + 2 ^ 32 - 1)

-- Where the bytes of a request are: an address in the cache, or bytes of its own.
pub data Buffer : Type 0 where
  cached : ℕ → Buffer
  own : Slice → Buffer

pub data Callback : Type 0 where
  read_done : ℕ → Callback
  write_done : ℕ → Slice → ℕ → Callback

pub data Opcode : Type 0 where
  pread : Opcode
  pwrite : Opcode

-- The fields of `AIO` that this code sets.
pub record Aio : Type 0 where
  pub opcode : Opcode
  pub buf : Buffer
  pub fd : ℕ
  pub nbytes : ℕ
  pub offset : ℕ
  pub callbacks : List Callback
  pub read_size : ℕ
  pub read_off : ℕ
  pub submit : Bool

-- `new AIO(batch)`: an `iocb` of zeros, and 0 is the opcode of a read.
unfoldable pub new_aio : Aio
new_aio = record {
  opcode = pread;
  buf = own [];
  fd = 0;
  nbytes = 0;
  offset = 0;
  callbacks = [];
  read_size = 0;
  read_off = 0;
  submit = false;
}

-- `if (ent) aio->AddCallback(…)`
unfoldable pub write_callbacks : Option ℕ → Slice → ℕ → List Callback
write_callbacks none d off = []
write_callbacks (some i) d off = write_done i d off ∷ []

-- The operation as `AIO::Success` looks at it.
abbrev pub operation : Aio → Operation
operation aio = elim aio.opcode [
  | pread ↦ Operation.pread
  | pwrite ↦ elim aio.buf [ cached a ↦ Operation.pwrite [] | own d ↦ Operation.pwrite d ]
]

module _ (p : Posix) where
  pub record FileSet : Type 0 where
    pub files : List LocalFile
    pub directory : Slice
    pub cache : PageCache
    pub os : p.Os

  -- `file_set_[file - 1]`
  unfoldable pub file_at : FileSet → ℕ → Result LocalFile
  file_at s file = elim (get_elem? s.files (slot file)) [
    | none ↦ fault out_of_range
    | some f ↦ ok f
  ]

  -- The constructor of `LocalFile`, and its `Open` and `Close`.
  unfoldable pub open_new : p.Os → Slice → ℕ → LocalFile × p.Os
  open_new os name mode =
      let (fd, os') = p.open_file os (FileName.path name) in
      (record { fd = fd; mode = mode; file_name = name }, os')

  unfoldable pub reopen : p.Os → LocalFile → LocalFile × p.Os
  reopen os f =
      if ltb 0 f.fd
      then (f, os)
      else (let (fd, os') = p.open_file os (FileName.path f.file_name) in
          (record f { fd = fd }, os'))

  unfoldable pub close_file : p.Os → LocalFile → LocalFile × p.Os
  close_file os f = (record f { fd = 0 }, if ltb 0 f.fd then p.close os f.fd else os)

  -- `LocalFileSet::Create`
  unfoldable pub create : FileSet → Slice → ℕ → Result (ℕ × FileSet)
  unfolding open_new
  create s name mode =
      let file = u32 (length s.files + 1) in
      let (f, os') = open_new s.os (s.directory ++ name) mode in
      do assert (ltb 0 file); ok (file, record s { files = s.files ++ (f ∷ []); os = os' })

  -- The loop of `LocalFileSet::Open`: the number of the first file with the name, 0 for none.
  unfoldable pub find_file : List LocalFile → Slice → ℕ
  find_file [] name = 0
  find_file (f ∷ fs) name =
      let rest = find_file fs name in
      if equal f.file_name name then 1 else (if rest == 0 then 0 else rest + 1)

  -- `file_set_[file - 1].Open()`
  unfoldable pub open_at : FileSet → ℕ → Result FileSet
  unfolding file_at reopen
  open_at s file = do
    f ← file_at s file
    let (f', os') = reopen s.os f
    ok (record s { files = set s.files (slot file) f'; os = os' })

  unfoldable pub open_named : FileSet → Slice → Result (ℕ × FileSet)
  unfolding open_at find_file
  open_named s name =
      let file = find_file s.files name in
      if file == 0 then ok (0, s) else (do s' ← open_at s file; ok (file, s'))

  unfoldable pub close : FileSet → ℕ → Result FileSet
  unfolding file_at close_file
  close s file = do
    f ← file_at s file
    let (f', os') = close_file s.os f
    ok (record s { files = set s.files (slot file) f'; os = os' })

  -- `LocalFileSet::ReadSync`: the bytes of the new slice. A read that the cache has not takes a new
  -- entry and reads the whole page.
  unfoldable pub read_sync : FileSet → ℕ → ℕ → ℕ → Result (Slice × FileSet)
  unfolding open_at file_at page_hash page_index page_start load modify lookup new_entry copy_to
      bytes_at
  read_sync s file size off = do
    s1 ← open_at s file
    let hash = page_hash file (page_index off)
    (r, c) ← lookup s1.cache hash
    (ent, c') ← elim r [
      | some i ↦ ok (i, c)
      | none ↦ do
        (i, c2) ← new_entry c hash
        e ← load c2 (some i)
        f ← file_at s1 file
        start ← page_start (page_index off)
        let d = p.pread s1.os f.fd page_size start
        assert (ltb 0 (length d))
        c3 ←
            modify (record c2 { memory = copy_to c2.memory e.page d }) (some i)
              (λ x. record x { wait = false })
        ok (i, c3)
    ]
    e ← load c' (some ent)
    ok (bytes_at c'.memory (e.page + off % page_size) size, record s1 { cache = c' })

  -- `LocalFileSet::Read`
  unfoldable pub read : FileSet → ℕ → ℕ → ℕ → Aio → Result (FileSet × Aio)
  unfolding open_at file_at page_hash page_index page_start load lookup new_entry
  read s file size off aio = do
    s1 ← open_at s file
    let hash = page_hash file (page_index off)
    (r, c) ← lookup s1.cache hash
    let aio1 = record aio { read_size = size; read_off = off % page_size }
    elim r [
      | some i ↦ do
        e ← load c (some i)
        ok (record s1 { cache = c }, record aio1 { buf = cached e.page; submit = false })
      | none ↦ do
        (i, c2) ← new_entry c hash
        e ← load c2 (some i)
        f ← file_at s1 file
        start ← page_start (page_index off)
        ok (
          record s1 { cache = c2 },
          record aio1 {
            opcode = pread;
            buf = cached e.page;
            fd = f.fd;
            nbytes = page_size;
            offset = start;
            callbacks = aio.callbacks ++ (read_done i ∷ []);
            submit = true;
          },
        )
    ]

  -- `LocalFileSet::Write`
  unfoldable pub write : FileSet → ℕ → Slice → ℕ → Aio → Result (FileSet × Aio)
  unfolding open_at file_at page_hash page_index lookup write_callbacks
  write s file d off aio = do
    s1 ← open_at s file
    f ← file_at s1 file
    (r, c) ← lookup s1.cache (page_hash file (page_index off))
    ok (
      record s1 { cache = c },
      record aio {
        opcode = pwrite;
        buf = own d;
        fd = f.fd;
        nbytes = length d;
        offset = off;
        callbacks = aio.callbacks ++ write_callbacks r d (off % page_size);
        submit = true;
      },
    )

  -- What the system does with a request that was submitted: the number of bytes that it reports, and
  -- the bytes in the buffer or in the file.
  unfoldable pub carry_out : FileSet → Aio → ℕ × FileSet
  unfolding copy_to
  carry_out s aio = elim aio.opcode [
    | pread ↦ elim aio.buf [
      | cached a ↦
          let d = p.pread s.os aio.fd aio.nbytes aio.offset in
          (length d, record s { cache = record s.cache { memory = copy_to s.cache.memory a d } })
      | own d ↦ (0, s)
    ]
    | pwrite ↦ elim aio.buf [
      | cached a ↦ (0, s)
      | own d ↦
          let (n, os') = p.pwrite s.os aio.fd (take aio.nbytes d) aio.offset in
          (n, record s { os = os' })
    ]
  ]

  -- The loop over the callbacks in `AIO::Finish`.
  unfoldable pub run_callbacks : FileSet → List Callback → Bool → Result FileSet
  unfolding write_callback read_callback
  run_callbacks s [] good = ok s
  run_callbacks s (read_done i ∷ rest) good = do
    c ← read_callback s.cache i good
    run_callbacks (record s { cache = c }) rest good
  run_callbacks s (write_done i d off ∷ rest) good = do
    c ← write_callback s.cache i d off good
    run_callbacks (record s { cache = c }) rest good

  -- `AIO::Finish`: the bytes that a read hands on.
  unfoldable pub finish : FileSet → Aio → Option Event → Result (FileSet × Option Slice)
  unfolding run_callbacks is_success bytes_at
  finish s aio event = do
    good ← is_success (operation aio) event
    s' ← run_callbacks s aio.callbacks good
    ok (
      s',
      elim aio.opcode [
        | pread ↦ elim aio.buf [
          | cached a ↦ some (bytes_at s'.cache.memory (a + aio.read_off) aio.read_size)
          | own d ↦ none
        ]
        | pwrite ↦ none
      ],
    )

  -- A request in a turn of `Worker::Main_`: what was submitted is carried out, then it is finished.
  unfoldable pub run_aio : FileSet → Aio → Result (FileSet × Option Slice)
  unfolding carry_out finish
  run_aio s aio =
      if aio.submit
      then (let (n, s') = carry_out s aio in finish s' aio (some (Event.bytes n)))
      else finish s aio none
