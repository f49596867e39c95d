-- ===== src/CacheManager/Handle.antt =====
-- HandleMemory, HandleDirtyMemory, InformPage and ResizePage of CacheManager.cpp, with what they
-- need of other code: what a page manager does when it is told to evict or flush a page, and what
-- the other threads have made of the cache manager each time that this thread wakes up.
use andromeda_desktop_client.Common.{
  ℕ, zero, suc, Bool, false, not, ◌&&◌, if◌then◌else◌, ltb, ◌==◌, List, [], ◌∷◌, Option, none, some,
}
use andromeda_desktop_client.OrderedMap
use andromeda_desktop_client.CacheManager.{
  CacheManager, PageInfo, Page, should_evict, should_flush, should_skip_wait, remove_dirty,
  remove_page, enqueue_page, resize_queued, resize_dirty,
}

pub data Error : Type 0 where
  backend memory : Error

-- How a call ends: it returns, it throws, it still waits when the observed wake-ups are over, or
-- (never, as the theorems show) the bound on its loop is used up.
pub data Outcome : Type 0 where
  done : CacheManager → Outcome
  thrown : Error → CacheManager → Outcome
  waiting : CacheManager → Outcome
  exhausted : Outcome

abbrev pub and_then : Outcome → (CacheManager → Outcome) → Outcome
and_then (done c) f = f c
and_then (thrown e c) f = thrown e c
and_then (waiting c) f = waiting c
and_then exhausted f = exhausted

-- What PageManager::EvictPage and FlushPage do to the cache manager: the pages that they write and
-- so report as no longer dirty, and whether the backend then failed. A flush also measures the
-- bandwidth, which sets the dirty limit.
pub record PageManagers : Type 0 where
  pub evicted : CacheManager → ℕ × PageInfo → List ℕ × Bool
  pub flushed : CacheManager → ℕ × PageInfo → List ℕ × Bool
  pub measured_limit : CacheManager → ℕ × PageInfo → ℕ

unfoldable pub remove_dirties : CacheManager → List ℕ → CacheManager
remove_dirties c [] = c
remove_dirties c (p ∷ ps) = remove_dirties (remove_dirty c p) ps

-- An eviction without a failure ends with RemovePage.
unfoldable pub evict_page : PageManagers → CacheManager → ℕ × PageInfo → Outcome
evict_page m c e =
    let (pages, failed) = m.evicted c e in
    if failed
    then thrown backend (remove_dirties c pages)
    else done (remove_page (remove_dirties c pages) e.0).0

-- A flush without a failure leaves the page clean, and CacheManager::FlushPage then sets the limit.
unfoldable pub flush_page : PageManagers → CacheManager → ℕ × PageInfo → Outcome
flush_page m c e =
    let (pages, failed) = m.flushed c e in
    let clean = remove_dirty (remove_dirties c pages) e.0 in
    if failed
    then thrown backend (remove_dirties c pages)
    else done (record clean { dirty_limit = m.measured_limit c e })

abbrev pub other_page : Option (ℕ × PageInfo) → ℕ → ℕ → Option (ℕ × PageInfo)
other_page none mgr page = none
other_page (some (k, i)) mgr page =
    if i.page_mgr == mgr && not (k == page) then some (k, i) else none

-- The test of the synchronous loops: the oldest entry, if the memory is over its limit and the
-- entry is of this manager and not of this page.
unfoldable pub evict_victim : CacheManager → ℕ → ℕ → Option (ℕ × PageInfo)
evict_victim c mgr page =
    if should_evict c then other_page (OrderedMap.back c.page_queue) mgr page else none

unfoldable pub flush_victim : CacheManager → ℕ → ℕ → Option (ℕ × PageInfo)
flush_victim c mgr page =
    if should_flush c then other_page (OrderedMap.back c.dirty_queue) mgr page else none

unfoldable pub sync_evict : PageManagers → ℕ → ℕ → ℕ → CacheManager → Outcome
sync_evict m mgr page zero c = exhausted
sync_evict m mgr page (suc fuel) c = elim (evict_victim c mgr page) [
  | none ↦ done c
  | some e ↦ and_then (evict_page m c e) (λ c'. sync_evict m mgr page fuel c')
]

unfoldable pub sync_flush : PageManagers → ℕ → ℕ → ℕ → CacheManager → Outcome
sync_flush m mgr page zero c = exhausted
sync_flush m mgr page (suc fuel) c = elim (flush_victim c mgr page) [
  | none ↦ done c
  | some e ↦ and_then (flush_page m c e) (λ c'. sync_flush m mgr page fuel c')
]

-- What ShouldAwaitEvict and ShouldAwaitFlush answer: no, an exception, or yes.
pub data Await : Type 0 where
  proceed fail wait : Await

unfoldable pub should_await_evict : CacheManager → ℕ → Await
unfolding should_evict should_skip_wait
should_await_evict c mgr =
    if should_evict c && c.evict_failure
    then fail
    else if should_evict c && not (should_skip_wait c mgr)
    then wait
    else proceed

unfoldable pub should_await_flush : CacheManager → ℕ → Await
unfolding should_flush should_skip_wait
should_await_flush c mgr =
    if should_flush c && c.flush_failure
    then fail
    else if should_flush c && not (should_skip_wait c mgr)
    then wait
    else proceed

-- The wait loops, over a test. The list holds the states in which the thread finds the cache
-- manager as it wakes up.
unfoldable pub await : (CacheManager → Await) → CacheManager → List CacheManager → Outcome
await test c [] = elim (test c) [ proceed ↦ done c | fail ↦ thrown memory c | wait ↦ waiting c ]
await test c (w ∷ ws) = elim (test c) [
  | proceed ↦ done c
  | fail ↦ thrown memory c
  | wait ↦ await test w ws
]

-- How a call is made: by which manager, with its write lock or not, and whether it can wait; and
-- whether the cleanup thread runs, with the wake-ups that the call sees if it waits.
pub record Caller : Type 0 where
  pub manager : ℕ
  pub page : ℕ
  pub can_wait : Bool
  pub has_lock : Bool
  pub thread_runs : Bool
  pub wakes : List CacheManager

-- The bound on the synchronous loop: each round takes at least one entry off the queue.
unfoldable pub handle_memory : PageManagers → Caller → CacheManager → Outcome
handle_memory m r c =
    and_then
      (if r.has_lock && r.can_wait
        then sync_evict m r.manager r.page (suc (OrderedMap.size c.page_queue)) c
        else done c)
      (λ d.
        if r.thread_runs && r.can_wait
        then await (λ w. should_await_evict w r.manager) (record d { evict_failure = false })
            r.wakes
        else done d)

unfoldable pub handle_dirty_memory : PageManagers → Caller → CacheManager → Outcome
handle_dirty_memory m r c =
    and_then
      (if r.has_lock && r.can_wait
        then sync_flush m r.manager r.page (suc (OrderedMap.size c.dirty_queue)) c
        else done c)
      (λ d.
        if r.thread_runs && r.can_wait
        then await (λ w. should_await_flush w r.manager) (record d { flush_failure = false })
            r.wakes
        else done d)

-- InformPage; the two callers are the same but for the thread and the wake-ups that each sees.
unfoldable pub inform_page :
    PageManagers → Caller → Caller → ℕ → Page → Bool → CacheManager → Outcome
inform_page m r rd index page dirty c =
    let (queued, old_size) = enqueue_page c r.manager index page dirty in
    if ltb old_size page.capacity
    then and_then (handle_memory m r queued)
        (λ d. if dirty then handle_dirty_memory m rd d else done d)
    else done queued

abbrev pub grown : Option ℕ → Page → Bool
grown none page = false
grown (some old_size) page = ltb old_size page.capacity

unfoldable pub resize_page : PageManagers → Caller → Caller → Page → CacheManager → Outcome
resize_page m r rd page c =
    let (queued, old_size) = resize_queued c page in
    and_then (if grown old_size page then handle_memory m r queued else done queued) (λ d.
      let (cleaned, old_dirty) = resize_dirty d page in
      if grown old_dirty page then handle_dirty_memory m rd cleaned else done cleaned)
