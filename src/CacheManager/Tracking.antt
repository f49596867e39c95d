-- ===== src/CacheManager/Tracking.antt =====
-- The memory tracking of CacheManager.cpp: what PrintStatus and PrintDirtyStatus check in a DEBUG
-- build, kept by every change of the queues.
use andromeda_desktop_client.Common.{
  ℕ, ◌≡◌, refl, ◌∙◌, ap, ◌≢◌, subst, none, some, Bool, true, false, arith, Option-cases, inl, inr,
}
use andromeda_desktop_client.OrderedMap
use andromeda_desktop_client.OrderedMap.{entries}
use andromeda_desktop_client.OrderedMap.Store.{table_find}
use andromeda_desktop_client.OrderedMap.Invariant.{IsLinked, empty-IsLinked}
use andromeda_desktop_client.OrderedMap.Laws.{find-erase_self, find-erase_ne, find-enqueue_front}
use andromeda_desktop_client.CacheManager.Sizes.{total_size}
use andromeda_desktop_client.CacheManager.{
  CacheManager, PageInfo, Page, queue_impl, page_info, init, remove_dirty, remove_queued,
  remove_page, enqueue_queued, enqueue_dirty, enqueue_page,
}
use andromeda_desktop_client.CacheManager.Counted.{
  IsCounted, erase-IsCounted, enqueue-IsCounted, erase-ne, find-erase-some,
}

-- The tracking invariant: both queues are counted by their totals, and each dirty entry is also in
-- the page queue, with the same owner, index and size.
pub record IsTracked (c : CacheManager) : Type 0 where
  pub pages : IsCounted c.page_queue c.current_total
  pub dirties : IsCounted c.dirty_queue c.current_dirty
  pub dirty_queued :
      (k : ℕ) (e : ℕ × PageInfo)
      → OrderedMap.find queue_impl c.dirty_queue k ≡ some e
      → OrderedMap.find queue_impl c.page_queue k ≡ some e

pub find-empty_map : (k : ℕ) → OrderedMap.find queue_impl OrderedMap.empty_map k ≡ none
unfolding OrderedMap.find OrderedMap.empty_map table_find
find-empty_map k = refl

pub empty-IsCounted : IsCounted OrderedMap.empty_map 0
unfolding total_size OrderedMap.empty_map
empty-IsCounted = record { linked = empty-IsLinked queue_impl; counted = refl }

pub init-IsTracked : (limit frac : ℕ) → IsTracked (init limit frac)
unfolding init
init-IsTracked limit frac = record {
  pages = empty-IsCounted;
  dirties = empty-IsCounted;
  dirty_queued = λ k e h. absurd (cc (find-empty_map k));
}

-- The state of the two queues after a page is gone from the page queue alone.
pub record IsDetached (page : ℕ) (c : CacheManager) : Type 0 where
  pub pages : IsCounted c.page_queue c.current_total
  pub dirties : IsCounted c.dirty_queue c.current_dirty
  pub gone : OrderedMap.find queue_impl c.page_queue page ≡ none
  pub dirty_queued :
      (k : ℕ) (e : ℕ × PageInfo)
      → k ≢ page
      → OrderedMap.find queue_impl c.dirty_queue k ≡ some e
      → OrderedMap.find queue_impl c.page_queue k ≡ some e

pub remove_queued-IsDetached :
    {c : CacheManager} (page : ℕ) → IsTracked c → IsDetached page (remove_queued c page).0
unfolding remove_queued
remove_queued-IsDetached {c} page v =
    elim (Option-cases (OrderedMap.find queue_impl c.page_queue page)) [
      | inl h ↦
          rw (h, remove_queued)
            (record {
              pages = v.pages;
              dirties = v.dirties;
              gone = h;
              dirty_queued = λ k e _. v.dirty_queued k e;
            })
      | inr ((key, info), h) ↦
          rw (h, remove_queued)
            (record {
              pages = erase-IsCounted page (key, info) v.pages h;
              dirties = v.dirties;
              gone = find-erase_self queue_impl c.page_queue page;
              dirty_queued = λ k e ne p.
                  find-erase_ne queue_impl k page v.pages.linked ne ∙ v.dirty_queued k e p;
            })
    ]

pub remove_dirty-IsTracked :
    {c : CacheManager} (page : ℕ) → IsTracked c → IsTracked (remove_dirty c page)
unfolding remove_dirty
remove_dirty-IsTracked {c} page v =
    elim (Option-cases (OrderedMap.find queue_impl c.dirty_queue page)) [
      | inl h ↦ rw (h, remove_dirty) v
      | inr ((key, info), h) ↦
          rw (h, remove_dirty)
            (record {
              pages = v.pages;
              dirties = erase-IsCounted page (key, info) v.dirties h;
              dirty_queued =
                  λ k e p. v.dirty_queued k e (find-erase-some page k e v.dirties.linked p);
            })
    ]

pub remove_dirty-detached :
    {c : CacheManager} (page : ℕ) → IsDetached page c → IsTracked (remove_dirty c page)
unfolding remove_dirty
remove_dirty-detached {c} page v =
    elim (Option-cases (OrderedMap.find queue_impl c.dirty_queue page)) [
      | inl h ↦
          rw (h, remove_dirty)
            (record {
              pages = v.pages;
              dirties = v.dirties;
              dirty_queued = λ k e p.
                  v.dirty_queued k e
                    (λ q. cc (subst (λ x. OrderedMap.find queue_impl c.dirty_queue x ≡ some e) q p))
                    p;
            })
      | inr ((key, info), h) ↦
          rw (h, remove_dirty)
            (record {
              pages = v.pages;
              dirties = erase-IsCounted page (key, info) v.dirties h;
              dirty_queued = λ k e p.
                  v.dirty_queued k e (erase-ne page k e v.dirties.linked p)
                    (find-erase-some page k e v.dirties.linked p);
            })
    ]

pub remove_dirty-queues :
    (c : CacheManager) (page : ℕ)
    → IsLinked queue_impl c.dirty_queue
    → ((remove_dirty c page).page_queue ≡ c.page_queue)
      × (OrderedMap.find queue_impl (remove_dirty c page).dirty_queue page ≡ none)
unfolding remove_dirty
remove_dirty-queues c page v = ground (arith, find-erase_self queue_impl c.dirty_queue page)

-- RemovePage keeps the memory tracking.
pub remove_page-IsTracked :
    {c : CacheManager} (page : ℕ) → IsTracked c → IsTracked (remove_page c page).0
unfolding remove_page
remove_page-IsTracked page v = remove_dirty-detached page (remove_queued-IsDetached page v)

-- After RemovePage neither queue has the page.
pub remove_page-absent :
    {c : CacheManager} (page : ℕ)
    → IsTracked c
    → (OrderedMap.find queue_impl (remove_page c page).0.page_queue page ≡ none)
      × (OrderedMap.find queue_impl (remove_page c page).0.dirty_queue page ≡ none)
unfolding remove_page
remove_page-absent {c} page v =
    let w = remove_queued-IsDetached page v in
    let (same, absent) = remove_dirty-queues (remove_queued c page).0 page w.dirties.linked in
    (ap (λ q. OrderedMap.find queue_impl q page) same ∙ w.gone, absent)

pub enqueue_queued-IsTracked :
    {c : CacheManager} (e : ℕ × PageInfo)
    → IsTracked c
    → OrderedMap.find queue_impl c.page_queue e.0 ≡ none
    → IsTracked (enqueue_queued c e)
unfolding enqueue_queued
enqueue_queued-IsTracked {c} e v h = record {
  pages = enqueue-IsCounted e v.pages h;
  dirties = v.dirties;
  dirty_queued = λ k d p.
      ground (arith, find-enqueue_front queue_impl k e v.pages.linked h, v.dirty_queued k d p);
}

pub dirty_case :
    (c : CacheManager) (k : ℕ) (e d : ℕ × PageInfo)
    → IsTracked c
    → OrderedMap.find queue_impl c.dirty_queue e.0 ≡ none
    → OrderedMap.find queue_impl c.page_queue e.0 ≡ some e
    → OrderedMap.find queue_impl (OrderedMap.enqueue_front queue_impl c.dirty_queue e) k ≡ some d
    → (OrderedMap.find queue_impl c.dirty_queue k ≡ some d
        → OrderedMap.find queue_impl c.page_queue k ≡ some d)
    → OrderedMap.find queue_impl c.page_queue k ≡ some d
dirty_case c k e d v h p q old =
    ground (arith, find-enqueue_front queue_impl k e v.dirties.linked h)

pub enqueue_dirty-IsTracked :
    {c : CacheManager} (e : ℕ × PageInfo)
    → IsTracked c
    → OrderedMap.find queue_impl c.dirty_queue e.0 ≡ none
    → OrderedMap.find queue_impl c.page_queue e.0 ≡ some e
    → IsTracked (enqueue_dirty c e)
unfolding enqueue_dirty
enqueue_dirty-IsTracked {c} e v h p = record {
  pages = v.pages;
  dirties = enqueue-IsCounted e v.dirties h;
  dirty_queued = λ k d q. dirty_case c k e d v h p q (v.dirty_queued k d);
}

pub enqueue_both-IsTracked :
    {c : CacheManager} (e : ℕ × PageInfo)
    → IsTracked c
    → OrderedMap.find queue_impl c.page_queue e.0 ≡ none
    → OrderedMap.find queue_impl c.dirty_queue e.0 ≡ none
    → IsTracked (enqueue_dirty (enqueue_queued c e) e)
enqueue_both-IsTracked {c} e v h d =
    enqueue_dirty-IsTracked e (enqueue_queued-IsTracked e v h) (unfold enqueue_queued in d) (
      unfold enqueue_queued in
      (ground (arith, find-enqueue_front queue_impl e.0 e v.pages.linked h)))

-- EnqueuePage keeps the memory tracking.
pub enqueue_page-IsTracked :
    {c : CacheManager} (mgr index : ℕ) (page : Page) (dirty : Bool)
    → IsTracked c
    → IsTracked (enqueue_page c mgr index page dirty).0
unfolding enqueue_page
enqueue_page-IsTracked mgr index page true v =
    let (a, b) = remove_page-absent page.address v in
    enqueue_both-IsTracked (page_info mgr index page) (remove_page-IsTracked page.address v) a b
enqueue_page-IsTracked mgr index page false v =
    enqueue_queued-IsTracked (page_info mgr index page) (remove_page-IsTracked page.address v)
      (remove_page-absent page.address v).0
