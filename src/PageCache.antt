-- ===== src/PageCache.antt =====
-- lib/kvengine/pagecache.h and lib/kvengine/pagecache.cc: pages of the files of slabs in memory. The
-- entries are linked from the newest to the oldest, and found by the hash of their page.
pub mod Links
pub mod Lru
mod Evict
pub mod NewEntry
pub mod Lookup
pub mod Views
pub mod Sound
pub mod Fresh
mod Middle
mod Tests
use ktable_fs.Base.{
  ℕ, zero, suc, ◌+◌, ◌-◌, ◌*◌, Bool, true, false, Option, none, some, List, [], ◌∷◌, ◌++◌, ltb, leb,
  ◌==◌, ◌&&◌, if◌then◌else◌, length, get_elem?, get_or, set, Result, ok, fault, null_pointer,
  out_of_range, assert_failed, hangs, assert, ◌>>=◌, ◌>>◌, find, emplace, erase,
}

-- `PageCache::Entry`. An entry is known by its number in the order of allocation; `page` is where its
-- page starts in `data_`.
pub record Entry : Type 0 where
  pub page : ℕ
  pub hash : ℕ
  pub wait : Bool
  pub prev : Option ℕ
  pub next : Option ℕ
  pub valid : Bool

pub record PageCache : Type 0 where
  pub newest : Option ℕ
  pub oldest : Option ℕ
  pub entries : List Entry
  pub memory : ℕ → ℕ
  pub index : List (ℕ × ℕ)
  pub used_page : ℕ
  pub max_page : ℕ

abbrev pub page_size : ℕ
page_size = 4096

-- The constructor; the new memory holds any bytes.
unfoldable pub new_cache : (ℕ → ℕ) → ℕ → PageCache
new_cache memory pages = record {
  newest = none;
  oldest = none;
  entries = [];
  memory = memory;
  index = [];
  used_page = 0;
  max_page = pages;
}

-- Access through a pointer to an entry.
unfoldable pub load : PageCache → Option ℕ → Result Entry
load c none = fault null_pointer
load c (some i) = elim (get_elem? c.entries i) [ none ↦ fault out_of_range | some e ↦ ok e ]

unfoldable pub modify : PageCache → Option ℕ → (Entry → Entry) → Result PageCache
modify c none f = fault null_pointer
modify c (some i) f = elim (get_elem? c.entries i) [
  | none ↦ fault out_of_range
  | some e ↦ ok (record c { entries = set c.entries i (f e) })
]

abbrev pub is : Option ℕ → ℕ → Bool
is none i = false
is (some j) i = j == i

abbrev pub set_next : Option ℕ → Entry → Entry
set_next p e = record e { next = p }

abbrev pub set_prev : Option ℕ → Entry → Entry
set_prev p e = record e { prev = p }

-- `oldest_ = ent->prev; oldest_->next = nullptr;`
unfoldable pub cut_oldest : PageCache → Entry → Result PageCache
unfolding modify
cut_oldest c e = modify (record c { oldest = e.prev }) e.prev (set_next none)

-- `Update_`, by whether the list is empty.
unfoldable pub update_list : PageCache → ℕ → Option ℕ → Result PageCache
unfolding load modify cut_oldest
update_list c ent none =
    modify (record c { newest = some ent; oldest = some ent }) (some ent)
      (λ e. record e { prev = none; next = none })
update_list c ent (some first) = if first == ent then ok c else (do
  e ← load c (some ent)
  c1 ← if is c.oldest ent then cut_oldest c e else ok c
  c2 ← modify c1 (some ent) (λ e. record e { next = some first; prev = none })
  c3 ← modify c2 (some first) (set_prev (some ent))
  ok (record c3 { newest = some ent }))

unfoldable pub update : PageCache → ℕ → Result PageCache
unfolding update_list
update c ent = update_list c ent c.newest

-- `while (ent && ent->wait) ent = ent->prev;` from an entry on; a walk of more steps than there is
-- fuel hangs.
unfoldable pub skip_waiting : ℕ → PageCache → Option ℕ → Result (Option ℕ)
skip_waiting fuel c none = ok none
skip_waiting zero c (some i) = fault hangs
skip_waiting (suc fuel) c (some i) = elim (get_elem? c.entries i) [
  | none ↦ fault out_of_range
  | some e ↦ let rest = skip_waiting fuel c e.prev in if e.wait then rest else ok (some i)
]

-- The first branch of `NewEntry`: a new entry with the next page of `data_`.
unfoldable pub grow : PageCache → ℕ × PageCache
grow c = (
  length c.entries,
  record c {
    entries =
        c.entries
        ++ (record {
          page = c.used_page * page_size;
          hash = 0;
          wait = false;
          prev = none;
          next = none;
          valid = false;
        }
            ∷ []);
    used_page = c.used_page + 1;
  },
)

-- The second: an entry that does not wait is taken out of the list and of the index.
unfoldable pub evict : PageCache → Result (ℕ × PageCache)
unfolding load modify cut_oldest skip_waiting
evict c = do
  found ← skip_waiting (suc (length c.entries)) c c.oldest
  elim found [
    | none ↦ fault assert_failed
    | some i ↦ do
      e ← load c (some i)
      c1 ←
          if is c.oldest i
          then cut_oldest c e
          else (do c2 ← modify c e.prev (set_next e.next); modify c2 e.next (set_prev e.prev))
      ok (i, record c1 { index = erase e.hash c1.index })
  ]

-- `NewEntry`
unfoldable pub new_entry : PageCache → ℕ → Result (ℕ × PageCache)
unfolding grow evict modify update
new_entry c hash = do
  (i, c1) ← if ltb c.used_page c.max_page then ok (grow c) else evict c
  c2 ← modify c1 (some i) (λ e. record e { hash = hash; valid = true; wait = true })
  c3 ← update (record c2 { index = emplace hash i c2.index }) i
  ok (i, c3)

-- What the loop of `Lookup` comes to: the entry, the end of the list, or neither.
pub data Walk : Type 0 where
  hit : ℕ → Walk
  end : Walk
  more : Walk

-- The loop of `Lookup`, for the rounds left.
unfoldable pub walk : ℕ → PageCache → Option ℕ → ℕ → Result Walk
walk zero c p hash = ok more
walk (suc n) c none hash = ok end
walk (suc n) c (some i) hash = elim (get_elem? c.entries i) [
  | none ↦ fault out_of_range
  | some e ↦
      let rest = walk n c e.next hash in if e.valid && (e.hash == hash) then ok (hit i) else rest
]

-- `Lookup`
unfoldable pub lookup : PageCache → ℕ → Result (Option ℕ × PageCache)
unfolding walk load update
lookup c hash = do
  w ← walk 20 c c.newest hash
  elim w [
    | hit i ↦ do c' ← update c i; ok (some i, c')
    | end ↦ ok (none, c)
    | more ↦ elim (find hash c.index) [
      | none ↦ ok (none, c)
      | some i ↦ do
        e ← load c (some i)
        if e.valid then (do c' ← update c i; ok (some i, c')) else ok (none, c)
    ]
  ]

-- `std::memcpy` to an address, and the bytes from an address on.
unfoldable pub copy_to : (ℕ → ℕ) → ℕ → List ℕ → ℕ → ℕ
copy_to memory to bytes a =
    if leb to a && ltb a (to + length bytes) then get_or bytes (a - to) 0 else memory a

unfoldable pub bytes_at : (ℕ → ℕ) → ℕ → ℕ → List ℕ
bytes_at memory from zero = []
bytes_at memory from (suc n) = memory from ∷ bytes_at memory (from + 1) n

-- `WriteCallback`: a write that failed is a failed assert.
unfoldable pub write_callback : PageCache → ℕ → List ℕ → ℕ → Bool → Result PageCache
unfolding load copy_to
write_callback c ent bytes off good =
    if good
    then (do
      e ← load c (some ent)
      ok (record c { memory = copy_to c.memory (e.page + off) bytes }))
    else fault assert_failed

-- `ReadCallback`
unfoldable pub read_callback : PageCache → ℕ → Bool → Result PageCache
unfolding modify
read_callback c ent good =
    if good then modify c (some ent) (λ e. record e { valid = true; wait = false }) else ok c
