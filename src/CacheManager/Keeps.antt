-- ===== src/CacheManager/Keeps.antt =====
-- What the synchronous evictions leave alone (CacheManager.cpp).
use andromeda_desktop_client.Common.{
  ℕ, zero, suc, ◌<◌, ◌≡◌, sym, ◌∙◌, ap, inl, inr, ◌≢◌, Option, some, arith, Bool-cases,
  Option-cases,
}
use andromeda_desktop_client.OrderedMap
use andromeda_desktop_client.OrderedMap.{entries}
use andromeda_desktop_client.OrderedMap.Laws.{find-erase_ne}
use andromeda_desktop_client.CacheManager.Tracking.{IsTracked, remove_page-IsTracked}
use andromeda_desktop_client.CacheManager.{
  CacheManager, PageInfo, queue_impl, remove_page, remove_queued,
}
use andromeda_desktop_client.CacheManager.Handle.{
  Outcome, done, thrown, waiting, exhausted, and_then, PageManagers, remove_dirties, evict_page,
  evict_victim, sync_evict,
}
use andromeda_desktop_client.CacheManager.Ends.{
  Ends, remove_dirties-IsTracked, remove_dirty-page_queue, remove_dirties-page_queue,
}
use andromeda_desktop_client.CacheManager.SyncEvict.{sync_evict-Ends}

pub remove_queued-find_ne :
    (c : CacheManager) (page k : ℕ)
    → IsTracked c
    → k ≢ page
    → OrderedMap.find queue_impl (remove_queued c page).0.page_queue k
      ≡ OrderedMap.find queue_impl c.page_queue k
unfolding remove_queued
remove_queued-find_ne c page k v h =
    ground (arith, find-erase_ne queue_impl k page v.pages.linked h)

pub victim_ne :
    (c : CacheManager) (mgr page : ℕ) (e : ℕ × PageInfo)
    → evict_victim c mgr page ≡ some e
    → e.0 ≢ page
unfolding evict_victim
victim_ne c mgr page e h = ground arith

-- Removing one page leaves the others queued.
pub remove_page-find_ne :
    (c : CacheManager) (page k : ℕ)
    → IsTracked c
    → k ≢ page
    → OrderedMap.find queue_impl (remove_page c page).0.page_queue k
      ≡ OrderedMap.find queue_impl c.page_queue k
unfolding remove_page
remove_page-find_ne c page k v h =
    ap (λ q. OrderedMap.find queue_impl q k) (remove_dirty-page_queue (remove_queued c page).0 page)
    ∙ remove_queued-find_ne c page k v h

-- The property that the theorem below carries through the loop.
abbrev pub Holds : ℕ → Option (ℕ × PageInfo) → CacheManager → Type 0
Holds page o d = IsTracked d × (OrderedMap.find queue_impl d.page_queue page ≡ o)

pub evict_page-Holds :
    (m : PageManagers) (mgr page : ℕ) (c : CacheManager) (e o : ℕ × PageInfo)
    → evict_victim c mgr page ≡ some e
    → Holds page (some o) c
    → Ends (Holds page (some o)) (evict_page m c e)
unfolding evict_page
evict_page-Holds m mgr page c e o h (v, p) =
    let d = remove_dirties c (m.evicted c e).0 in
    let w = remove_dirties-IsTracked c (m.evicted c e).0 v in
    let same =
      ap (λ q. OrderedMap.find queue_impl q page) (remove_dirties-page_queue c (m.evicted c e).0)
      ∙ p in
    elim (Bool-cases (m.evicted c e).1) [
      | inl b ↦ rw (b, evict_page) (w, same)
      | inr b ↦
          rw (b, evict_page)
            (
              remove_page-IsTracked e.0 w,
              remove_page-find_ne d e.0 page w (λ q. victim_ne c mgr page e h (sym q)) ∙ same,
            )
    ]

pub sync_evict-Holds :
    (m : PageManagers) (mgr page fuel : ℕ) (c : CacheManager) (o : ℕ × PageInfo)
    → Ends IsTracked (sync_evict m mgr page fuel c)
    → Holds page (some o) c
    → Ends
        (λ d. OrderedMap.find queue_impl d.page_queue page ≡ some o)
        (sync_evict m mgr page fuel c)
unfolding sync_evict
sync_evict-Holds m mgr page zero c o f h = f
sync_evict-Holds m mgr page (suc fuel) c o f h = elim (Option-cases (evict_victim c mgr page)) [
  | inl e ↦ rw (e, sync_evict) h.1
  | inr (x, e) ↦
      rw (e, sync_evict)
        (next (evict_page m c x) (evict_page-Holds m mgr page c x o e h) (rw (e, sync_evict) at f)
          (λ d. sync_evict-Holds m mgr page fuel d o))
]
  where
    next :
        (r : Outcome)
        → Ends (Holds page (some o)) r
        → Ends IsTracked (and_then r (λ d. sync_evict m mgr page fuel d))
        → ((d : CacheManager)
            → Ends IsTracked (sync_evict m mgr page fuel d)
            → Holds page (some o) d
            → Ends
                (λ x. OrderedMap.find queue_impl x.page_queue page ≡ some o)
                (sync_evict m mgr page fuel d))
        → Ends
            (λ x. OrderedMap.find queue_impl x.page_queue page ≡ some o)
            (and_then r (λ d. sync_evict m mgr page fuel d))
    next (done d) s u k = k d u s
    next (thrown e d) s u k = s.1
    next (waiting d) s u k = s.1
    next exhausted s u k = s

-- The synchronous evictions of a call never take the page that the call is about: it stays queued
-- with its size, whether they end in success or in an exception.
pub sync_evict-keeps_page :
    (m : PageManagers) (mgr page fuel : ℕ) (c : CacheManager) (o : ℕ × PageInfo)
    → OrderedMap.size c.page_queue < fuel
    → IsTracked c
    → OrderedMap.find queue_impl c.page_queue page ≡ some o
    → Ends
        (λ d. OrderedMap.find queue_impl d.page_queue page ≡ some o)
        (sync_evict m mgr page fuel c)
sync_evict-keeps_page m mgr page fuel c o h v p =
    sync_evict-Holds m mgr page fuel c o (sync_evict-Ends m mgr page fuel c h v) (v, p)
