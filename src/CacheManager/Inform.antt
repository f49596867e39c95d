-- ===== src/CacheManager/Inform.antt =====
-- The wait loops, HandleMemory, HandleDirtyMemory and InformPage (CacheManager.cpp).
use andromeda_desktop_client.Common.{
  ℕ, Bool, true, false, ◌&&◌, if◌then◌else◌, ltb, List, [], ◌∷◌, All, arith,
}
use andromeda_desktop_client.CacheManager.Tracking.{IsTracked, enqueue_page-IsTracked}
use andromeda_desktop_client.CacheManager.{CacheManager, Page, enqueue_page}
use andromeda_desktop_client.CacheManager.Handle.{
  memory, Outcome, done, thrown, waiting, PageManagers, Await, proceed, fail, wait,
  should_await_evict, should_await_flush, await, Caller, handle_memory, handle_dirty_memory,
  inform_page,
}
use andromeda_desktop_client.CacheManager.Ends.{Ends, Ends-and_then}
use andromeda_desktop_client.CacheManager.SyncEvict.{sync_evict-Ends}
use andromeda_desktop_client.CacheManager.SyncFlush.{sync_flush-Ends}

pub await-Ends :
    (P : CacheManager → Type 0) (test : CacheManager → Await) (c : CacheManager)
    (ws : List CacheManager)
    → P c
    → All P ws
    → Ends P (await test c ws)
unfolding await
await-Ends P test c [] v vs = go (test c)
  where
    go :
        (a : Await)
        → Ends P (elim a [ proceed ↦ done c | fail ↦ thrown memory c | wait ↦ waiting c ])
    go proceed = v
    go fail = v
    go wait = v
await-Ends P test c (w ∷ ws) v vs = go (test c) (await-Ends P test w ws vs.0 vs.1)
  where
    go :
        (a : Await)
        → Ends P (await test w ws)
        → Ends P (elim a [ proceed ↦ done c | fail ↦ thrown memory c | wait ↦ await test w ws ])
    go proceed h = v
    go fail h = v
    go wait h = h

pub reset_evict-IsTracked :
    (c : CacheManager) → IsTracked c → IsTracked (record c { evict_failure = false })
reset_evict-IsTracked c v = record {
  pages = v.pages;
  dirties = v.dirties;
  dirty_queued = v.dirty_queued;
}

pub reset_flush-IsTracked :
    (c : CacheManager) → IsTracked c → IsTracked (record c { flush_failure = false })
reset_flush-IsTracked c v = record {
  pages = v.pages;
  dirties = v.dirties;
  dirty_queued = v.dirty_queued;
}

-- The second half of the two functions: the wait, if there is a thread to wait for.
pub maybe-Ends :
    (P : CacheManager → Type 0) (b : Bool) (o : Outcome) (c : CacheManager)
    → Ends P o
    → P c
    → Ends P (if b then o else done c)
maybe-Ends P true o c h v = h
maybe-Ends P false o c h v = v

pub handle_memory-Ends :
    (m : PageManagers) (r : Caller) (c : CacheManager)
    → All IsTracked r.wakes
    → IsTracked c
    → Ends IsTracked (handle_memory m r c)
unfolding handle_memory
handle_memory-Ends m r c ws v =
    Ends-and_then IsTracked IsTracked _ _ (λ d w. w)
      (maybe-Ends IsTracked (r.has_lock && r.can_wait) _ c
        (sync_evict-Ends m r.manager r.page _ c (omega arith) v) v)
      (λ d w.
        maybe-Ends IsTracked (r.thread_runs && r.can_wait) _ d
          (await-Ends IsTracked (λ x. should_await_evict x r.manager) _ r.wakes
            (reset_evict-IsTracked d w) ws)
          w)

pub handle_dirty_memory-Ends :
    (m : PageManagers) (r : Caller) (c : CacheManager)
    → All IsTracked r.wakes
    → IsTracked c
    → Ends IsTracked (handle_dirty_memory m r c)
unfolding handle_dirty_memory
handle_dirty_memory-Ends m r c ws v =
    Ends-and_then IsTracked IsTracked _ _ (λ d w. w)
      (maybe-Ends IsTracked (r.has_lock && r.can_wait) _ c
        (sync_flush-Ends m r.manager r.page _ c (omega arith) v) v)
      (λ d w.
        maybe-Ends IsTracked (r.thread_runs && r.can_wait) _ d
          (await-Ends IsTracked (λ x. should_await_flush x r.manager) _ r.wakes
            (reset_flush-IsTracked d w) ws)
          w)

-- InformPage never uses up the bound on its loops, and returning, throwing or waiting it leaves the
-- tracking right: both totals are the sums of the queued sizes modulo 2^64, and each dirty entry is
-- also a page entry; given that the tracking is right before, and at each wake-up.
pub inform_page-Ends :
    (m : PageManagers) (r rd : Caller) (index : ℕ) (page : Page) (dirty : Bool) (c : CacheManager)
    → All IsTracked r.wakes
    → All IsTracked rd.wakes
    → IsTracked c
    → Ends IsTracked (inform_page m r rd index page dirty c)
unfolding inform_page
inform_page-Ends m r rd index page dirty c ws wds v =
    let (queued, old_size) = enqueue_page c r.manager index page dirty in
    let w = enqueue_page-IsTracked r.manager index page dirty v in
    maybe-Ends IsTracked (ltb old_size page.capacity) _ queued
      (Ends-and_then IsTracked IsTracked _ _ (λ d u. u) (handle_memory-Ends m r queued ws w)
        (λ d u. maybe-Ends IsTracked dirty _ d (handle_dirty_memory-Ends m rd d wds u) u))
      w
