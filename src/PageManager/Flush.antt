-- ===== src/PageManager/Flush.antt =====
-- Writing back in PageManager.cpp and PageBackend.cpp: GetWriteList, FlushPageList, FlushCreate,
-- FlushPage, EvictPage and FlushPages, of a file whose cache manager is disabled (mCacheMgr is null).
-- Which requests the server refuses is a parameter; a refused request is a BackendException.
-- Creating or uploading a file calls Refresh on it before mBackendExists is set, where RemoteChanged
-- returns at once.
pub mod Runs
pub mod Shape
pub mod Clean
pub mod Sends
pub mod Requests
pub mod All
use andromeda_desktop_client.Common.{
  ℕ, zero, suc, ◌+◌, ◌-◌, ◌*◌, Bool, true, false, not, ◌&&◌, ◌||◌, if◌then◌else◌, ltb, ◌==◌, List,
  [], ◌∷◌, ◌++◌, Option, none, some, max, add64, length,
}
use andromeda_desktop_client.PageManager.Pages.{Page, PageMap, page_length, find_page, erase_page}
use andromeda_desktop_client.PageManager.{PageManager, Request, create, upload, write, cut}

abbrev pub Refuses : Type 0
Refuses = PageManager → Request → Bool

-- The state at the end, which may be by an exception, and the number of bytes written.
pub data Flushed : Type 0 where
  flushed : PageManager → ℕ → Flushed
  refused : PageManager → Flushed

abbrev pub and_then : Flushed → (PageManager → ℕ → Flushed) → Flushed
and_then (flushed m n) f = f m n
and_then (refused m) f = refused m

abbrev pub request : Refuses → PageManager → Request → PageManager → ℕ → Flushed
request refuses m r after written =
    if refuses m r
    then refused m
    else flushed (record after { requests = m.requests ++ r ∷ [] }) written

abbrev pub is_empty {ℓ} : {A : Type ℓ} → List A → Bool
is_empty [] = true
is_empty (x ∷ xs) = false

-- What the loop of GetWriteList does with the next page.
pub data Choice : Type 0 where
  add skip stop : Choice

unfoldable pub choose : ℕ → ℕ → ℕ → PageMap → ℕ → Page → Choice
choose max_write last cur_size run i p =
    if p.dirty
    then (if is_empty run
        then add
        else if not (last + 1 == i) || ltb (add64 cur_size (page_length p)) cur_size
        then stop
        else if ltb 0 max_write && ltb max_write (cur_size + page_length p)
        then stop
        else add)
    else if is_empty run
    then skip
    else stop

-- GetWriteList from an iterator: the run of pages to write, and the pages from the iterator's end.
unfoldable pub write_list : ℕ → ℕ → ℕ → PageMap → PageMap → PageMap × PageMap
unfolding choose
write_list max_write last cur_size run [] = (run, [])
write_list max_write last cur_size run ((i, p) ∷ ps) =
    elim (choose max_write last cur_size run i p) [
      | add ↦ write_list max_write i (cur_size + page_length p) (run ++ (i, p) ∷ []) ps
      | skip ↦ write_list max_write last cur_size run ps
      | stop ↦ (run, (i, p) ∷ ps)
    ]

-- The loop of FlushPages that collects all runs; each round takes at least one page off the map.
unfoldable pub write_lists : ℕ → ℕ → PageMap → List PageMap
write_lists max_write zero ps = []
write_lists max_write (suc fuel) [] = []
write_lists max_write (suc fuel) (q ∷ ps) =
    let (run, rest) = write_list max_write 0 0 [] (q ∷ ps) in
    let runs = write_lists max_write fuel rest in if is_empty run then runs else run ∷ runs

unfoldable pub total_bytes : PageMap → ℕ
total_bytes [] = 0
total_bytes ((i, p) ∷ ps) = page_length p + total_bytes ps

-- What the stream of FlushPageList reads from the pages: it ends behind a page that is shorter than
-- a whole one. No page is longer.
unfoldable pub run_bytes : ℕ → PageMap → List ℕ
run_bytes page_size [] = []
run_bytes page_size ((i, p) ∷ ps) =
    let rest = run_bytes page_size ps in
    if page_length p == page_size then p.bytes ++ rest else p.bytes

-- PageBackend::FlushPageList: a file that does not exist yet is uploaded whole with its first page,
-- or created first if the run starts later.
unfoldable pub create_before : Refuses → PageManager → ℕ → Flushed
create_before refuses m index =
    if not m.backend_exists && not (index == 0)
    then request refuses m create (record m { backend_exists = true }) 0
    else flushed m 0

unfoldable pub send_pages : Refuses → PageManager → ℕ → PageMap → Flushed
unfolding total_bytes run_bytes
send_pages refuses m index run =
    let total = total_bytes run in
    let after = record m {
      backend_exists = true;
      backend_size = max m.backend_size (index * m.page_size + total);
    } in
    if m.backend_exists
    then request refuses m (write (index * m.page_size) (run_bytes m.page_size run)) after total
    else request refuses m (upload (run_bytes m.page_size run)) after total

unfoldable pub backend_flush : Refuses → PageManager → ℕ → PageMap → Flushed
unfolding create_before send_pages
backend_flush refuses m index run =
    and_then (create_before refuses m index) (λ d _. send_pages refuses d index run)

-- PageBackend::Truncate.
unfoldable pub backend_truncate : Refuses → PageManager → ℕ → Flushed
backend_truncate refuses m size =
    if m.backend_exists && not (m.backend_size == size)
    then request refuses m (cut size) (record m { backend_size = size }) 0
    else flushed m 0

-- The byte after the last dirty byte.
unfoldable pub max_dirty : ℕ → PageMap → ℕ
max_dirty page_size [] = 0
max_dirty page_size ((i, p) ∷ ps) =
    if p.dirty
    then max (i * page_size + page_length p) (max_dirty page_size ps)
    else max_dirty page_size ps

unfoldable pub flush_create : Refuses → PageManager → Flushed
unfolding max_dirty backend_truncate
flush_create refuses m =
    and_then
      (if m.backend_exists
        then flushed m 0
        else request refuses m create (record m { backend_exists = true }) 0)
      (λ d _.
        if ltb (max d.backend_size (max_dirty d.page_size d.pages)) d.file_size
        then backend_truncate refuses d d.file_size
        else flushed d 0)

-- setDirty(false) on each page of a run.
unfoldable pub clean_page : ℕ → PageMap → PageMap
clean_page i [] = []
clean_page i ((j, p) ∷ ps) =
    if j == i then (j, record p { dirty = false }) ∷ ps else (j, p) ∷ clean_page i ps

unfoldable pub clean_pages : PageMap → PageMap → PageMap
unfolding clean_page
clean_pages [] ps = ps
clean_pages ((i, p) ∷ run) ps = clean_pages run (clean_page i ps)

unfoldable pub flush_page_list : Refuses → PageManager → ℕ → PageMap → Flushed
unfolding backend_flush flush_create clean_pages
flush_page_list refuses m index run =
    and_then (if is_empty run then flushed m 0 else backend_flush refuses m index run) (λ d total.
      let cleaned = record d { pages = clean_pages run d.pages } in
      if m.backend_exists
      then flushed cleaned total
      else and_then (flush_create refuses cleaned) (λ e _. flushed e total))

-- The pages from an index on: a copy of the iterator that find gives.
unfoldable pub pages_from : ℕ → PageMap → PageMap
pages_from i [] = []
pages_from i ((j, p) ∷ ps) = if j == i then (j, p) ∷ ps else pages_from i ps

unfoldable pub flush_page : Refuses → ℕ → Bool → PageManager → ℕ → Flushed
unfolding pages_from write_list flush_page_list
flush_page refuses max_write rand_write m index = elim (find_page index m.pages) [
  | none ↦ flushed m 0
  | some p ↦
      let run = (write_list max_write 0 0 [] (pages_from index m.pages)).0 in
      if p.dirty && rand_write && not (is_empty run)
      then flush_page_list refuses m index run
      else flushed m 0
]

unfoldable pub remove_or_defer : Bool → ℕ → PageManager → PageManager
remove_or_defer rand_write index m = elim (find_page index m.pages) [
  | none ↦ m
  | some p ↦
      if not p.dirty || rand_write
      then record m { pages = erase_page index m.pages }
      else record m { deferred_evicts = m.deferred_evicts ++ index ∷ [] }
]

unfoldable pub evict_page : Refuses → ℕ → Bool → PageManager → ℕ → Flushed
unfolding pages_from write_list flush_page_list remove_or_defer
evict_page refuses max_write rand_write m index = elim (find_page index m.pages) [
  | none ↦ flushed m 0
  | some p ↦
      and_then
        (if p.dirty && rand_write
          then flush_page_list refuses m index
              (write_list max_write 0 0 [] (pages_from index m.pages)).0
          else flushed m 0)
        (λ d written. flushed (remove_or_defer rand_write index d) written)
]

abbrev pub run_index : PageMap → ℕ
run_index [] = 0
run_index ((i, p) ∷ run) = i

unfoldable pub flush_runs : Refuses → PageManager → List PageMap → Flushed
flush_runs refuses m [] = flushed m 0
flush_runs refuses m (run ∷ runs) =
    and_then (flush_page_list refuses m (run_index run) run) (λ d _. flush_runs refuses d runs)

unfoldable pub evict_deferred : Refuses → ℕ → Bool → PageManager → List ℕ → Flushed
evict_deferred refuses max_write rand_write m [] = flushed m 0
evict_deferred refuses max_write rand_write m (i ∷ is) =
    and_then (evict_page refuses max_write rand_write m i)
      (λ d _. evict_deferred refuses max_write rand_write d is)

unfoldable pub flush_pages : Refuses → ℕ → Bool → PageManager → Flushed
unfolding write_lists flush_runs evict_deferred flush_page_list
flush_pages refuses max_write rand_write m =
    let runs = write_lists max_write (suc (length m.pages)) m.pages in
    and_then (if is_empty runs then flush_page_list refuses m 0 [] else flush_runs refuses m runs)
      (λ d _.
        and_then (evict_deferred refuses max_write rand_write d d.deferred_evicts)
          (λ e _. flushed (record e { deferred_evicts = [] }) 0))
