-- ===== src/CacheManager/SyncEvict.antt =====
-- The synchronous evictions of HandleMemory (CacheManager.cpp).
use andromeda_desktop_client.Common.{
  ℕ, zero, suc, ◌+◌, ◌<◌, ◌≡◌, sym, ◌∙◌, ap, inl, inr, ◌≢◌, none, some, arith, Bool-cases,
  Option-cases,
}
use andromeda_desktop_client.OrderedMap
use andromeda_desktop_client.OrderedMap.{entries}
use andromeda_desktop_client.OrderedMap.Laws.{size-erase, find-back}
use andromeda_desktop_client.CacheManager.Tracking.{IsTracked, remove_page-IsTracked}
use andromeda_desktop_client.CacheManager.{
  CacheManager, PageInfo, queue_impl, remove_page, remove_queued,
}
use andromeda_desktop_client.CacheManager.Handle.{
  Outcome, done, thrown, waiting, exhausted, and_then, PageManagers, remove_dirties, evict_page,
  evict_victim, sync_evict,
}
use andromeda_desktop_client.CacheManager.Ends.{
  Ends, remove_dirties-IsTracked, remove_dirty-page_queue, remove_dirties-page_queue,
}

-- A victim is at the back of the page queue.
pub evict_victim-back :
    (c : CacheManager) (mgr page : ℕ) (e : ℕ × PageInfo)
    → evict_victim c mgr page ≡ some e
    → OrderedMap.back c.page_queue ≡ some e
unfolding evict_victim
evict_victim-back c mgr page e h = ground arith

pub remove_queued-size :
    (c : CacheManager) (page : ℕ)
    → IsTracked c
    → OrderedMap.find queue_impl c.page_queue page ≢ none
    → OrderedMap.size (remove_queued c page).0.page_queue + 1 ≡ OrderedMap.size c.page_queue
unfolding remove_queued
remove_queued-size c page v h =
    ground (arith, size-erase queue_impl c.page_queue page v.pages.linked h)

pub remove_page-size :
    (c : CacheManager) (page : ℕ)
    → IsTracked c
    → OrderedMap.find queue_impl c.page_queue page ≢ none
    → OrderedMap.size (remove_page c page).0.page_queue + 1 ≡ OrderedMap.size c.page_queue
unfolding remove_page
remove_page-size c page v h =
    ap (λ q. OrderedMap.size q + 1) (remove_dirty-page_queue (remove_queued c page).0 page)
    ∙ remove_queued-size c page v h

-- An eviction keeps the tracking, and one without a failure makes the page queue smaller.
abbrev pub Smaller : CacheManager → Outcome → Type 0
Smaller c (done d) = IsTracked d × (OrderedMap.size d.page_queue < OrderedMap.size c.page_queue)
Smaller c (thrown e d) = IsTracked d
Smaller c (waiting d) = ⊥
Smaller c exhausted = ⊥

pub evict_page-Smaller :
    (m : PageManagers) (c : CacheManager) (e : ℕ × PageInfo)
    → IsTracked c
    → OrderedMap.find queue_impl c.page_queue e.0 ≢ none
    → Smaller c (evict_page m c e)
unfolding evict_page
evict_page-Smaller m c e v h = elim (Bool-cases (m.evicted c e).1) [
  | inl p ↦ rw (p, evict_page) (remove_dirties-IsTracked c (m.evicted c e).0 v)
  | inr p ↦
      let d = remove_dirties c (m.evicted c e).0 in
      let w = remove_dirties-IsTracked c (m.evicted c e).0 v in
      let same = remove_dirties-page_queue c (m.evicted c e).0 in
      rw (p, evict_page)
        (
          remove_page-IsTracked e.0 w,
          omega (
            arith,
            remove_page-size d e.0 w
                (λ n. h (ap (λ q. OrderedMap.find queue_impl q e.0) (sym same) ∙ n)),
            ap (λ q. OrderedMap.size q) same,
          ),
        )
]

-- The synchronous evictions keep the tracking, and end within as many rounds as pages are queued.
pub sync_evict-Ends :
    (m : PageManagers) (mgr page fuel : ℕ) (c : CacheManager)
    → OrderedMap.size c.page_queue < fuel
    → IsTracked c
    → Ends IsTracked (sync_evict m mgr page fuel c)
unfolding sync_evict
sync_evict-Ends m mgr page zero c h v = absurd (omega arith)
sync_evict-Ends m mgr page (suc fuel) c h v = elim (Option-cases (evict_victim c mgr page)) [
  | inl e ↦ rw (e, sync_evict) v
  | inr (x, e) ↦
      let found = find-back queue_impl x v.pages.linked (evict_victim-back c mgr page x e) in
      rw (e, sync_evict)
        (next (evict_page m c x) (evict_page-Smaller m c x v (λ n. cc))
          (λ d w s. sync_evict-Ends m mgr page fuel d (omega arith) w))
]
  where
    next :
        (o : Outcome)
        → Smaller c o
        → ((d : CacheManager)
            → IsTracked d
            → OrderedMap.size d.page_queue < OrderedMap.size c.page_queue
            → Ends IsTracked (sync_evict m mgr page fuel d))
        → Ends IsTracked (and_then o (λ d. sync_evict m mgr page fuel d))
    next (done d) s k = k d s.0 s.1
    next (thrown e d) s k = s
    next (waiting d) s k = absurd s
    next exhausted s k = s
