-- ===== src/Lib.antt =====
-- KTableFS, a file system in user space that keeps metadata in a key-value store and contents in
-- files of the local file system.
--
-- The parts of the program and the modules that model them (paths from the repository's root):
--   FileData     src/file_data.h, src/file_data.cc: contents. The first block of a file is a slot of
--                a shared aggregation file, the rest a large file of its own. `create`, `delete`,
--                `read`, `write` are the methods of the same names; Buffers has `ReadBuf` and
--                `WriteBuf`.
--   File         src/file.h, src/file.cc: the metadata of a file, their 32 bytes (`to_slice`,
--                `from_slice`) and what the kernel is told (`fuse_entry`).
--   FileKey      src/file_key.h, src/file_key.cc: the key of a file in the database.
--   Fs           src/ktablefs.h and the handlers in src/mknod.cc, src/lookup.cc, src/dir.cc,
--                src/open.cc, src/attr.cc and src/read_write.cc. A handler replies at once or submits
--                a request with a callback; `Fs.Names.perform` runs it on a map. Fs.Copies has the
--                handlers that leave copying to FUSE, Fs.Listing the callback of ReadDir.
--   Slice, Hash  lib/kvengine/include/kvengine/slice.h and util/hash.cc.
--   Batch        lib/kvengine/include/kvengine/batch.h, lib/kvengine/batch.cc: a queue of requests.
--   Db           lib/kvengine/db.cc: which worker a batch goes to.
--   Worker       lib/kvengine/worker.cc, lib/kvengine/aio.cc: `process_request` starts the io of a
--                request, `finish_all` ends it, and `turn` is one round of the loop of `Main_`.
--                Worker.Map is the finite map that a worker implements.
--   PageCache    lib/kvengine/pagecache.h, lib/kvengine/pagecache.cc: pages of the files of slabs in
--                memory. Links and Lru have the list of entries by use, Sound and Fresh what holds
--                whatever the links are, NewEntry, Lookup and Middle what the operations do to both.
--   LocalFileSet lib/kvengine/local_fileset.h, lib/kvengine/local_fileset.cc: the files of slabs, read
--                and written through the page cache. Coherent is the cache against the files, Write,
--                Read and Serve a request from its start to its end, Served when one can be served.
--   FileSlab     lib/kvengine/fileslab.h, lib/kvengine/fileslab.cc: which slab a record gets, and
--                the bytes of a record.
--   KeyMap       `std::map` with slices for keys.
--   Arena        util/arena.c: memory that is given out from blocks; Memslab, util/memslab.c and
--                util/freelist.c: pieces of one size from an arena.
--   HashTable    util/hash_table.c.
--   RbTree       util/index/rbtree/rbtree.c: a tree with colors. A node is reached with the list of its
--                parents, which stands for the pointers `parent`. Balance and Valid have what `rb_valid` checks,
--                Order the comparison of keys, Entries, Sorted and Inserted the contents, Scan
--                `rbtree_scan`. Remove is `rbtree_remove`, with its theorems below it.
--   ThreadsafeQueue  lib/kvengine/threadsafe_queue.h: operations of threads as one sequence.
--   Base, Bytes  shared lists, words, faults and maps, and integers as bytes.
--
-- A handler of Fs makes a key (FileKey) and bytes of metadata (File), puts them into a batch, which
-- Db hands to a worker. The worker looks the key up in its index and reads or writes the slab of the
-- record. Contents go to FileData directly.
--
-- Interfaces. Posix is what src/file_data.cc calls of the operating system, with its laws;
-- Posix.Memory is a file system in memory that has them, and Posix.Disk one that has the laws on single
-- bytes. Slabs is what a worker needs of its slabs,
-- with its laws. Slabs.Class has them: it is one class of FileSlab, with its free list and its
-- numbers, over the bytes of files, without the page cache, and gives out files while their numbers fit 16
-- bits; so has Slabs.Array, a list. The page cache does not have them in every state: PageCache.NewEntry
-- and PageCache.Middle say where it fails. The io of a turn is a parameter of `turn`: a function from the
-- queue to the events, of which `Worker.Map.complete` is the one where all succeeds.
--
-- Conventions. A failed assert, a null pointer, an index out of range, an exception, an overflow of a
-- signed number, a use of freed memory and a loop without an end are values of `Fault`. Numbers are natural numbers; where the source has 16, 32 or 64 bits and can wrap, the
-- model has `u16`, `u32` and `u64`. Loops are recursions on lists; `Db.visits` has fuel, one unit for
-- each worker, which is enough for the scan of a new batch, and `PageCache.skip_waiting` one unit more
-- than there are entries, which is enough for a list without cycles, and `RbTree.Remove.delete_fixup`
-- two more than there are parents, since a red sibling costs one round more and ends the loop. An entry of the cache is known by its
-- number in the order of allocation. Bytes are numbers.
--
-- Not modelled: the threads of the workers (a turn gets the batches that it pops as a list; the page
-- cache and the files of slabs stand apart from it, behind the interface Slabs), a failing open(2), the
-- freeing of memory, the start of the program, util/index/btree, util/queue.c and the vendored benchmark.
pub mod Base
pub mod Posix
pub mod FileData
pub mod Bytes
pub mod Hash
pub mod FileKey
pub mod FileSlab
pub mod Slice
pub mod KeyMap
pub mod Batch
pub mod Slabs
pub mod Worker
pub mod File
pub mod Fs
pub mod Db
pub mod Arena
pub mod HashTable
pub mod Memslab
pub mod LocalFileSet
pub mod PageCache
pub mod RbTree
pub mod ThreadsafeQueue
