-- ===== src/PageManager.antt =====
-- src/lib/andromeda/filesystem/filedata/PageManager.cpp: the pages of one file.
-- Offsets and sizes are unbounded numbers here: no file reaches 2^64 bytes. Where the source itself
-- tests for an overflow of size_t, the sum is the 64-bit sum, and where a difference may fall below 0
-- it wraps around.
pub mod Pages
pub mod Fetch
pub mod Received
pub mod Failed
pub mod Flush
pub mod Write
pub mod Written
pub mod Truncate
pub mod Remote
mod Tests
use andromeda_desktop_client.Common.{
  ℕ, zero, suc, ◌+◌, ◌-◌, ◌*◌, ◌/◌, Bool, true, false, not, ◌&&◌, ◌||◌, if◌then◌else◌, ltb, leb,
  ◌==◌, List, [], ◌∷◌, ◌++◌, Option, none, some, min, max, add64, sub64, length,
}
use Pages.{Page, PageMap, page_length, resize, find_page, erase_page, emplace_page, upper_bound}

-- A request for the file, with the bytes that it sends: all of a new file, or from an offset on.
pub data Request : Type 0 where
  create : Request
  upload : List ℕ → Request
  write : ℕ → List ℕ → Request
  cut : ℕ → Request

-- A pending read: the first index that is still missing, and how many pages are.
-- `requests` are those that the server has accepted.
pub record PageManager : Type 0 where
  pub page_size : ℕ
  pub file_size : ℕ
  pub backend_size : ℕ
  pub backend_exists : Bool
  pub fetch_size : ℕ
  pub pages : PageMap
  pub pending : List (ℕ × ℕ)
  pub failed : List ℕ
  pub deferred_evicts : List ℕ
  pub requests : List Request

unfoldable pub in_range : ℕ → ℕ × ℕ → Bool
in_range index (first, count) = leb first index && ltb index (first + count)

unfoldable pub is_fetch_pending : List (ℕ × ℕ) → ℕ → Bool
unfolding in_range
is_fetch_pending [] index = false
is_fetch_pending (r ∷ rs) index = in_range index r || is_fetch_pending rs index

unfoldable pub is_fetch_failed : List ℕ → ℕ → Bool
is_fetch_failed [] index = false
is_fetch_failed (f ∷ fs) index = f == index || is_fetch_failed fs index

-- RemovePendingFetch on the list of ranges: the first range that starts at the index loses that
-- index, and goes away whole if the call is not for the index only, or if it is empty then.
unfoldable pub remove_pending_fetch : ℕ → Bool → List (ℕ × ℕ) → List (ℕ × ℕ)
remove_pending_fetch index idx_only [] = []
remove_pending_fetch index idx_only ((first, count) ∷ rs) =
    if index == first
    then (if not idx_only || sub64 count 1 == 0 then rs else (first + 1, sub64 count 1) ∷ rs)
    else (first, count) ∷ remove_pending_fetch index idx_only rs

-- The last loop of GetFetchSize: how many pages come before the next pending one.
unfoldable pub stop_pending : List (ℕ × ℕ) → ℕ → ℕ → ℕ → ℕ
stop_pending pending index current zero = current
stop_pending pending index current (suc left) =
    if is_fetch_pending pending (current + index)
    then current
    else stop_pending pending index (suc current) left

abbrev pub before_next : ℕ → Option ℕ → ℕ → ℕ
before_next index none count = count
before_next index (some next) count = min (next - index) count

unfoldable pub last_page : PageManager → ℕ
last_page m = (m.backend_size - 1) / m.page_size

-- The read count of GetFetchSize, once its early returns are past.
unfoldable pub read_count : PageManager → ℕ → ℕ
unfolding last_page
read_count m index =
    let wanted = if ltb 0 index then min (last_page m - index + 1) m.fetch_size else 1 in
    stop_pending m.pending index 0 (before_next index (upper_bound index m.pages) wanted)

abbrev pub is_some {ℓ} : {A : Type ℓ} → Option A → Bool
is_some none = false
is_some (some a) = true

unfoldable pub get_fetch_size : PageManager → ℕ → ℕ
unfolding read_count
get_fetch_size m index =
    if leb m.file_size (index * m.page_size)
    then 0
    else if m.backend_size == 0
    then 0
    else if ltb (last_page m) index
    then 0
    else if is_some (find_page index m.pages)
    then 0
    else read_count m index

-- StartFetch: a new pending range at the end, and the failures in it forgotten. The thread that it
-- starts is the sequence of calls of receive_page and fail_fetch below.
unfoldable pub forget_failures : ℕ → ℕ → List ℕ → List ℕ
forget_failures index count [] = []
forget_failures index count (f ∷ fs) =
    if leb index f && ltb f (index + count)
    then forget_failures index count fs
    else f ∷ forget_failures index count fs

unfoldable pub start_fetch : PageManager → ℕ → ℕ → PageManager
unfolding forget_failures
start_fetch m index count = record m {
  pending = m.pending ++ (index, count) ∷ [];
  failed = forget_failures index count m.failed;
}

-- The loop of DoAdvanceRead over the pages that are left of the read-ahead buffer.
unfoldable pub advance : PageManager → ℕ → ℕ → PageManager
unfolding start_fetch get_fetch_size
advance m next zero = m
advance m next (suc left) =
    let rest = advance m (suc next) left in
    if leb m.file_size (next * m.page_size)
    then m
    else if ltb 0 (get_fetch_size m next)
    then start_fetch m next (get_fetch_size m next)
    else rest

unfoldable pub do_advance_read : PageManager → ℕ → ℕ → PageManager
unfolding advance
do_advance_read m index read_ahead_buffer =
    if index == 0 then m else advance m (index + 1) read_ahead_buffer

-- The callback of FetchPages for one page: the fetch began at `start`, and the source computes the
-- real size from the start of the fetch.
unfoldable pub fetched_page : PageManager → ℕ → Page → Page
unfolding resize
fetched_page m start p =
    let real_size = min (sub64 m.file_size (start * m.page_size)) m.page_size in
    if ltb (page_length p) real_size then resize p real_size else p

unfoldable pub receive_page : PageManager → ℕ → ℕ → Page → PageManager
unfolding fetched_page emplace_page remove_pending_fetch
receive_page m start index p = record m {
  pages = emplace_page index (fetched_page m start p) m.pages;
  pending = remove_pending_fetch index true m.pending;
}

-- The handler of FetchPages: every page that is still missing has failed.
unfoldable pub add_failures : ℕ → ℕ → List ℕ → List ℕ
add_failures index zero failed = failed
add_failures index (suc count) failed = index ∷ add_failures (suc index) count failed

unfoldable pub fail_fetch : PageManager → ℕ → ℕ → ℕ → PageManager
unfolding add_failures remove_pending_fetch
fail_fetch m start count current = record m {
  failed = add_failures current (start + count - current) m.failed;
  pending =
      if ltb current (start + count)
      then remove_pending_fetch current false m.pending
      else m.pending;
}

-- UpdateBandwidth after BandwidthMeasure has given the target: the cache limits it.
unfoldable pub update_fetch_size : PageManager → Option ℕ → ℕ → ℕ → PageManager
update_fetch_size m none max_cache_frac target_bytes = record m {
  fetch_size = max 1 (target_bytes / m.page_size);
}
update_fetch_size m (some memory_limit) max_cache_frac target_bytes = record m {
  fetch_size = max 1 (min target_bytes (memory_limit / max_cache_frac) / m.page_size);
}
