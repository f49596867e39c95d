-- ===== src/CacheManager.antt =====
-- src/lib/andromeda/filesystem/filedata/CacheManager.cpp: the LRU cache of file pages.
-- A page and a page manager are known by their addresses. All sums wrap at 64 bits.
-- Each function is one stretch of code that runs under mMutex. Debug output is left out.
pub mod Sizes
pub mod Counted
pub mod Tracking
pub mod Resize
pub mod Dirty
pub mod Handle
pub mod Ends
pub mod SyncEvict
pub mod SyncFlush
pub mod Inform
pub mod Answers
pub mod Keeps
pub mod Evictions
mod Tests
use andromeda_desktop_client.Common.{
  ℕ, ◌-◌, ◌/◌, Bool, false, ◌||◌, if◌then◌else◌, ltb, ◌==◌, Option, none, some, ℕ_discrete, add64,
  sub64,
}
use andromeda_desktop_client.OrderedMap
use andromeda_desktop_client.OrderedMap.{OrderedMap, pair_impl, Impl}

-- The view that the cache manager has of a page: its address, its capacity, its dirty flag.
pub record Page : Type 0 where
  pub address : ℕ
  pub capacity : ℕ
  pub is_dirty : Bool

pub record PageInfo : Type 0 where
  pub page_mgr : ℕ
  pub page_index : ℕ
  pub page_size : ℕ

abbrev pub PageQueue : Type 0
PageQueue = OrderedMap ℕ (ℕ × PageInfo)

abbrev pub queue_impl : Impl ℕ PageInfo (ℕ × PageInfo)
queue_impl = pair_impl ℕ_discrete

-- The failures and the skip pointers are absent where the source has a null pointer.
pub record CacheManager : Type 0 where
  pub page_queue : PageQueue
  pub dirty_queue : PageQueue
  pub current_total : ℕ
  pub current_dirty : ℕ
  pub dirty_limit : ℕ
  pub evict_failure : Bool
  pub flush_failure : Bool
  pub skip_evict_wait : Option ℕ
  pub skip_flush_wait : Option ℕ
  pub memory_limit : ℕ
  pub evict_size_frac : ℕ

-- The constructor: the limits come from the options.
unfoldable pub init : ℕ → ℕ → CacheManager
unfolding OrderedMap.empty_map
init memory_limit evict_size_frac = record {
  page_queue = OrderedMap.empty_map;
  dirty_queue = OrderedMap.empty_map;
  current_total = 0;
  current_dirty = 0;
  dirty_limit = 0;
  evict_failure = false;
  flush_failure = false;
  skip_evict_wait = none;
  skip_flush_wait = none;
  memory_limit = memory_limit;
  evict_size_frac = evict_size_frac;
}

-- The baseline that the constructor gives to the page allocator.
unfoldable pub alloc_baseline : CacheManager → ℕ
alloc_baseline c = c.memory_limit - c.memory_limit / c.evict_size_frac

unfoldable pub should_evict : CacheManager → Bool
should_evict c = ltb c.memory_limit c.current_total

unfoldable pub should_flush : CacheManager → Bool
should_flush c = ltb c.dirty_limit c.current_dirty

abbrev pub points_to : Option ℕ → ℕ → Bool
points_to none p = false
points_to (some q) p = q == p

unfoldable pub should_skip_wait : CacheManager → ℕ → Bool
should_skip_wait c mgr = points_to c.skip_evict_wait mgr || points_to c.skip_flush_wait mgr

unfoldable pub remove_dirty : CacheManager → ℕ → CacheManager
remove_dirty c page = elim (OrderedMap.find queue_impl c.dirty_queue page) [
  | none ↦ c
  | some (_, info) ↦ record c {
    current_dirty = sub64 c.current_dirty info.page_size;
    dirty_queue = (OrderedMap.erase queue_impl c.dirty_queue page).0;
  }
]

-- The first half of RemovePage, with the size of the page that it found.
unfoldable pub remove_queued : CacheManager → ℕ → CacheManager × ℕ
remove_queued c page = elim (OrderedMap.find queue_impl c.page_queue page) [
  | none ↦ (c, 0)
  | some (_, info) ↦ (
    record c {
      current_total = sub64 c.current_total info.page_size;
      page_queue = (OrderedMap.erase queue_impl c.page_queue page).0;
    },
    info.page_size,
  )
]

unfoldable pub remove_page : CacheManager → ℕ → CacheManager × ℕ
remove_page c page = (remove_dirty (remove_queued c page).0 page, (remove_queued c page).1)

abbrev pub page_info : ℕ → ℕ → Page → ℕ × PageInfo
page_info mgr index page =
    (page.address, record { page_mgr = mgr; page_index = index; page_size = page.capacity })

unfoldable pub enqueue_queued : CacheManager → ℕ × PageInfo → CacheManager
enqueue_queued c e = record c {
  page_queue = OrderedMap.enqueue_front queue_impl c.page_queue e;
  current_total = add64 c.current_total e.1.page_size;
}

unfoldable pub enqueue_dirty : CacheManager → ℕ × PageInfo → CacheManager
enqueue_dirty c e = record c {
  dirty_queue = OrderedMap.enqueue_front queue_impl c.dirty_queue e;
  current_dirty = add64 c.current_dirty e.1.page_size;
}

-- EnqueuePage: the new state, and the size that the page had before.
unfoldable pub enqueue_page : CacheManager → ℕ → ℕ → Page → Bool → CacheManager × ℕ
unfolding enqueue_queued enqueue_dirty
enqueue_page c mgr index page dirty =
    let (removed, old_size) = remove_page c page.address in
    let queued = enqueue_queued removed (page_info mgr index page) in
    (if dirty then enqueue_dirty queued (page_info mgr index page) else queued, old_size)

-- The first block of ResizePage up to its call of HandleMemory, and the size found there, if any.
unfoldable pub resize_queued : CacheManager → Page → CacheManager × Option ℕ
resize_queued c page = elim (OrderedMap.find queue_impl c.page_queue page.address) [
  | none ↦ (c, none)
  | some (key, info) ↦ (
    record c {
      current_total = add64 c.current_total (sub64 page.capacity info.page_size);
      page_queue =
          OrderedMap.assign queue_impl c.page_queue page.address
            (key, record info { page_size = page.capacity });
    },
    some info.page_size,
  )
]

-- The second block of ResizePage up to its call of HandleDirtyMemory.
unfoldable pub resize_dirty : CacheManager → Page → CacheManager × Option ℕ
resize_dirty c page = elim (OrderedMap.find queue_impl c.dirty_queue page.address) [
  | none ↦ (c, none)
  | some (key, info) ↦ (
    record c {
      current_dirty = add64 c.current_dirty (sub64 page.capacity info.page_size);
      dirty_queue =
          OrderedMap.assign queue_impl c.dirty_queue page.address
            (key, record info { page_size = page.capacity });
    },
    some info.page_size,
  )
]
