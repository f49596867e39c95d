-- ===== src/CacheManager/Dirty.antt =====
-- The dirty memory of CacheManager.cpp against the whole memory.
use andromeda_desktop_client.Common.{ℕ, ◌≤◌, ◌<◌, ◌≡◌, sym, ◌∙◌, List, [], ◌∷◌, some, arith, word}
use andromeda_desktop_client.OrderedMap.{entries}
use andromeda_desktop_client.OrderedMap.Store.{Node, entries_of}
use andromeda_desktop_client.OrderedMap.Spec.{entry_of, entry_of_absent, find-entry_of}
use andromeda_desktop_client.OrderedMap.Invariant.{Distinct}
use andromeda_desktop_client.CacheManager.{CacheManager, PageInfo, queue_impl}
use andromeda_desktop_client.CacheManager.Sizes.{total_size_mono, DistinctKeys}
use andromeda_desktop_client.CacheManager.Counted.{size_of}
use andromeda_desktop_client.CacheManager.Tracking.{IsTracked}

DistinctKeys-entries :
    (q : List (Node (ℕ × PageInfo))) → Distinct queue_impl q → DistinctKeys (entries_of q)
DistinctKeys-entries [] d = tt
DistinctKeys-entries (n ∷ q) d =
    (entry_of_absent queue_impl n.entry.0 q d.0, DistinctKeys-entries q d.2)

dirty_entry :
    (c : CacheManager)
    → IsTracked c
    → (k : ℕ) (e : ℕ × PageInfo) → entry_of queue_impl k (entries c.dirty_queue) ≡ some e
    → entry_of queue_impl k (entries c.page_queue) ≡ some e
dirty_entry c v k e h =
    sym (find-entry_of queue_impl k v.pages.linked).0
    ∙ v.dirty_queued k e ((find-entry_of queue_impl k v.dirties.linked).0 ∙ h)

-- While the tracking is right and the sizes of all pages together fit 64 bits, the dirty memory is
-- the sum of the dirty sizes, the total is the sum of all sizes, and dirty is at most total.
pub dirty-le-total :
    (c : CacheManager)
    → IsTracked c
    → size_of c.page_queue < word
    → (c.current_total ≡ size_of c.page_queue)
      × (c.current_dirty ≡ size_of c.dirty_queue)
      × (c.current_dirty ≤ c.current_total)
dirty-le-total c v h =
    let le =
      total_size_mono (entries c.dirty_queue) (entries c.page_queue)
        (DistinctKeys-entries c.dirty_queue.queue v.dirties.linked.distinct) (dirty_entry c v) in
    omega (arith, v.pages.counted, v.dirties.counted, le)
