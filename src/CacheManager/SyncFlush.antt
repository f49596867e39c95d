-- ===== src/CacheManager/SyncFlush.antt =====
-- The synchronous flushes of HandleDirtyMemory (CacheManager.cpp).
use andromeda_desktop_client.Common.{
  ℕ, zero, suc, ◌≤◌, ◌<◌, ◌≡◌, inl, inr, ◌≢◌, List, [], ◌∷◌, none, some, arith, Bool-cases,
  Option-cases,
}
use andromeda_desktop_client.OrderedMap
use andromeda_desktop_client.OrderedMap.{entries}
use andromeda_desktop_client.OrderedMap.Laws.{size-erase, find-back}
use andromeda_desktop_client.CacheManager.Tracking.{IsTracked, remove_dirty-IsTracked}
use andromeda_desktop_client.CacheManager.{CacheManager, PageInfo, queue_impl, remove_dirty}
use andromeda_desktop_client.CacheManager.Handle.{
  Outcome, done, thrown, waiting, exhausted, and_then, PageManagers, remove_dirties, flush_page,
  flush_victim, sync_flush,
}
use andromeda_desktop_client.CacheManager.Ends.{Ends, remove_dirties-IsTracked}

-- The same of the synchronous flushes, by the dirty queue.
pub flush_victim-back :
    (c : CacheManager) (mgr page : ℕ) (e : ℕ × PageInfo)
    → flush_victim c mgr page ≡ some e
    → OrderedMap.back c.dirty_queue ≡ some e
unfolding flush_victim
flush_victim-back c mgr page e h = ground arith

pub remove_dirty-size :
    (c : CacheManager) (page : ℕ)
    → IsTracked c
    → OrderedMap.size (remove_dirty c page).dirty_queue ≤ OrderedMap.size c.dirty_queue
unfolding remove_dirty
remove_dirty-size c page v =
    ground (arith, size-erase queue_impl c.dirty_queue page v.dirties.linked)

pub remove_dirties-size :
    (c : CacheManager) (ps : List ℕ)
    → IsTracked c
    → OrderedMap.size (remove_dirties c ps).dirty_queue ≤ OrderedMap.size c.dirty_queue
unfolding remove_dirties
remove_dirties-size c [] v = omega arith
remove_dirties-size c (p ∷ ps) v = omega (
  arith,
  remove_dirty-size c p v,
  remove_dirties-size (remove_dirty c p) ps (remove_dirty-IsTracked p v),
)

pub remove_dirty-lt :
    (c : CacheManager) (p : ℕ)
    → IsTracked c
    → OrderedMap.find queue_impl c.dirty_queue p ≢ none
    → OrderedMap.size (remove_dirty c p).dirty_queue < OrderedMap.size c.dirty_queue
unfolding remove_dirty
remove_dirty-lt c p v h = ground (arith, size-erase queue_impl c.dirty_queue p v.dirties.linked h)

-- A page that one removal took off the dirty queue is the page that was removed.
pub remove_dirty-gone :
    (c : CacheManager) (p k : ℕ)
    → IsTracked c
    → OrderedMap.find queue_impl c.dirty_queue k ≢ none
    → OrderedMap.find queue_impl (remove_dirty c p).dirty_queue k ≡ none
    → OrderedMap.find queue_impl c.dirty_queue p ≢ none
unfolding remove_dirty
remove_dirty-gone c p k v h g = λ e. h (rw (e, remove_dirty) at g)

pub clean-lt :
    (c : CacheManager) (ps : List ℕ) (k : ℕ)
    → IsTracked c
    → OrderedMap.find queue_impl c.dirty_queue k ≢ none
    → OrderedMap.size (remove_dirty (remove_dirties c ps) k).dirty_queue
      < OrderedMap.size c.dirty_queue
unfolding remove_dirties
clean-lt c [] k v h = remove_dirty-lt c k v h
clean-lt c (p ∷ ps) k v h =
    let d = remove_dirty c p in
    let w = remove_dirty-IsTracked p v in
    let rest = remove_dirties-size d ps w in
    let w' = remove_dirties-IsTracked d ps w in
    let last = remove_dirty-size (remove_dirties d ps) k w' in
    elim (Option-cases (OrderedMap.find queue_impl d.dirty_queue k)) [
      | inl e ↦
          let first = remove_dirty-lt c p v (remove_dirty-gone c p k v h e) in
          omega (arith, first, rest, last)
      | inr (x, e) ↦ omega (arith, clean-lt d ps k w (λ n. cc), remove_dirty-size c p v)
    ]

pub with_limit-IsTracked :
    {c : CacheManager} (n : ℕ) → IsTracked c → IsTracked (record c { dirty_limit = n })
with_limit-IsTracked n v = record {
  pages = v.pages;
  dirties = v.dirties;
  dirty_queued = v.dirty_queued;
}

abbrev pub Cleaner : CacheManager → Outcome → Type 0
Cleaner c (done d) = IsTracked d × (OrderedMap.size d.dirty_queue < OrderedMap.size c.dirty_queue)
Cleaner c (thrown e d) = IsTracked d
Cleaner c (waiting d) = ⊥
Cleaner c exhausted = ⊥

pub flush_page-Cleaner :
    (m : PageManagers) (c : CacheManager) (e : ℕ × PageInfo)
    → IsTracked c
    → OrderedMap.find queue_impl c.dirty_queue e.0 ≢ none
    → Cleaner c (flush_page m c e)
unfolding flush_page
flush_page-Cleaner m c e v h = elim (Bool-cases (m.flushed c e).1) [
  | inl p ↦ rw (p, flush_page) (remove_dirties-IsTracked c (m.flushed c e).0 v)
  | inr p ↦
      rw (p, flush_page)
        (
          with_limit-IsTracked (m.measured_limit c e)
              (remove_dirty-IsTracked e.0 (remove_dirties-IsTracked c (m.flushed c e).0 v)),
          clean-lt c (m.flushed c e).0 e.0 v h,
        )
]

pub sync_flush-Ends :
    (m : PageManagers) (mgr page fuel : ℕ) (c : CacheManager)
    → OrderedMap.size c.dirty_queue < fuel
    → IsTracked c
    → Ends IsTracked (sync_flush m mgr page fuel c)
unfolding sync_flush
sync_flush-Ends m mgr page zero c h v = absurd (omega arith)
sync_flush-Ends m mgr page (suc fuel) c h v = elim (Option-cases (flush_victim c mgr page)) [
  | inl e ↦ rw (e, sync_flush) v
  | inr (x, e) ↦
      let found = find-back queue_impl x v.dirties.linked (flush_victim-back c mgr page x e) in
      rw (e, sync_flush)
        (next (flush_page m c x) (flush_page-Cleaner m c x v (λ n. cc))
          (λ d w s. sync_flush-Ends m mgr page fuel d (omega arith) w))
]
  where
    next :
        (o : Outcome)
        → Cleaner c o
        → ((d : CacheManager)
            → IsTracked d
            → OrderedMap.size d.dirty_queue < OrderedMap.size c.dirty_queue
            → Ends IsTracked (sync_flush m mgr page fuel d))
        → Ends IsTracked (and_then o (λ d. sync_flush m mgr page fuel d))
    next (done d) s k = k d s.0 s.1
    next (thrown e d) s k = s
    next (waiting d) s k = absurd s
    next exhausted s k = s
