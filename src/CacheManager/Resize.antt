-- ===== src/CacheManager/Resize.antt =====
-- ResizePage of CacheManager.cpp, whose two halves change one queue each.
use andromeda_desktop_client.Common.{
  ℕ_discrete, ℕ, ◌≡◌, ◌≢◌, subst, none, some, arith, Option-cases, inl, inr,
}
use andromeda_desktop_client.OrderedMap
use andromeda_desktop_client.OrderedMap.{entries}
use andromeda_desktop_client.OrderedMap.Laws.{find-assign}
use andromeda_desktop_client.CacheManager.{
  CacheManager, PageInfo, Page, queue_impl, resize_queued, resize_dirty,
}
use andromeda_desktop_client.CacheManager.Counted.{IsCounted, assign-IsCounted, find-key}
use andromeda_desktop_client.CacheManager.Tracking.{IsTracked}

-- The tracking invariant with the dirty entry of one page left out: between the two halves of
-- ResizePage that page is queued with its new size, and maybe dirty with its old one.
pub record IsResizing (page : ℕ) (c : CacheManager) : Type 0 where
  pub pages : IsCounted c.page_queue c.current_total
  pub dirties : IsCounted c.dirty_queue c.current_dirty
  pub dirty_queued :
      (k : ℕ) (e : ℕ × PageInfo)
      → k ≢ page
      → OrderedMap.find queue_impl c.dirty_queue k ≡ some e
      → OrderedMap.find queue_impl c.page_queue k ≡ some e

pub resized_dirty :
    (c : CacheManager) (page k : ℕ) (x e d : ℕ × PageInfo)
    → IsTracked c
    → x.0 ≡ page
    → k ≢ page
    → OrderedMap.find queue_impl c.page_queue page ≡ some d
    → OrderedMap.find queue_impl c.dirty_queue k ≡ some e
    → OrderedMap.find queue_impl (OrderedMap.assign queue_impl c.page_queue page x) k ≡ some e
resized_dirty c page k x e d v p ne h q =
    ground (arith, find-assign queue_impl k page x v.pages.linked p, v.dirty_queued k e q)

-- The first half of ResizePage keeps both sums, and every other page's dirty entry.
pub resize_queued-IsResizing :
    {c : CacheManager} (page : Page)
    → IsTracked c
    → IsResizing page.address (resize_queued c page).0
unfolding resize_queued
resize_queued-IsResizing {c} page v =
    elim (Option-cases (OrderedMap.find queue_impl c.page_queue page.address)) [
      | inl h ↦
          rw (h, resize_queued)
            (record {
              pages = v.pages;
              dirties = v.dirties;
              dirty_queued = λ k e _. v.dirty_queued k e;
            })
      | inr ((key, info), h) ↦
          let same = find-key page.address (key, info) v.pages.linked h in
          let x : ℕ × PageInfo = (key, record info { page_size = page.capacity }) in
          rw (h, resize_queued)
            (record {
              pages = assign-IsCounted page.address (key, info) x v.pages h same;
              dirties = v.dirties;
              dirty_queued = λ k e ne. resized_dirty c page.address k x e (key, info) v same ne h;
            })
    ]

resized_both :
    (c : CacheManager) (page k : ℕ) (x e d : ℕ × PageInfo)
    → IsResizing page c
    → x.0 ≡ page
    → OrderedMap.find queue_impl c.page_queue page ≡ some x
    → OrderedMap.find queue_impl c.dirty_queue page ≡ some d
    → OrderedMap.find queue_impl (OrderedMap.assign queue_impl c.dirty_queue page x) k ≡ some e
    → (k ≢ page
        → OrderedMap.find queue_impl c.dirty_queue k ≡ some e
        → OrderedMap.find queue_impl c.page_queue k ≡ some e)
    → OrderedMap.find queue_impl c.page_queue k ≡ some e
resized_both c page k x e d v p h q r old =
    ground (arith, find-assign queue_impl k page x v.dirties.linked p)

resized_none :
    (c : CacheManager) (page k : ℕ) (e : ℕ × PageInfo)
    → IsResizing page c
    → OrderedMap.find queue_impl c.dirty_queue page ≡ none
    → OrderedMap.find queue_impl c.dirty_queue k ≡ some e
    → OrderedMap.find queue_impl c.page_queue k ≡ some e
resized_none c page k e v h p = elim (ℕ_discrete k page) [
  | yes q ↦ absurd (clash (subst (λ x. OrderedMap.find queue_impl c.dirty_queue x ≡ some e) q p))
  | no q ↦ v.dirty_queued k e q p
]
  where
    clash : OrderedMap.find queue_impl c.dirty_queue page ≡ some e → ⊥
    clash r = cc

-- The second half of ResizePage completes the tracking, once the page is queued with its new size
-- and its dirty entry, if it has one, is the queued entry but for the size.
resize_dirty-IsTracked :
    {c : CacheManager} (page : Page) (key : ℕ) (info : PageInfo)
    → IsResizing page.address c
    → key ≡ page.address
    → OrderedMap.find queue_impl c.page_queue page.address
      ≡ some (key, record info { page_size = page.capacity })
    → ((d : ℕ × PageInfo)
        → OrderedMap.find queue_impl c.dirty_queue page.address ≡ some d
        → d ≡ (key, info))
    → IsTracked (resize_dirty c page).0
unfolding resize_dirty
resize_dirty-IsTracked {c} page key info v same queued dirty =
    elim (Option-cases (OrderedMap.find queue_impl c.dirty_queue page.address)) [
      | inl h ↦
          rw (h, resize_dirty)
            (record {
              pages = v.pages;
              dirties = v.dirties;
              dirty_queued = λ k e. resized_none c page.address k e v h;
            })
      | inr (d, h) ↦
          let x : ℕ × PageInfo = (key, record info { page_size = page.capacity }) in
          let h' : OrderedMap.find queue_impl c.dirty_queue page.address ≡ some (key, info) =
            subst (λ y. OrderedMap.find queue_impl c.dirty_queue page.address ≡ some y) (dirty d h)
              h in
          rw (h', resize_dirty)
            (record {
              pages = v.pages;
              dirties = assign-IsCounted page.address (key, info) x v.dirties h' same;
              dirty_queued = λ k e q.
                  resized_both c page.address k x e (key, info) v same queued h' q
                    (v.dirty_queued k e);
            })
    ]

-- A page that is not queued is not dirty either, and ResizePage leaves all as it is.
resize_absent :
    (c : CacheManager) (page : Page)
    → IsTracked c
    → OrderedMap.find queue_impl c.page_queue page.address ≡ none
    → IsTracked (resize_dirty (resize_queued c page).0 page).0
unfolding resize_queued resize_dirty
resize_absent c page v h =
    elim (Option-cases (OrderedMap.find queue_impl c.dirty_queue page.address)) [
      | inl e ↦ rw (h, resize_queued) (rw (e, resize_dirty) v)
      | inr (d, e) ↦ absurd (cc (v.dirty_queued page.address d e))
    ]

resize_found :
    (c : CacheManager) (page : Page) (key : ℕ) (info : PageInfo)
    → IsTracked c
    → OrderedMap.find queue_impl c.page_queue page.address ≡ some (key, info)
    → key ≡ page.address
    → OrderedMap.find queue_impl (resize_queued c page).0.page_queue page.address
      ≡ some (key, record info { page_size = page.capacity })
unfolding resize_queued
resize_found c page key info v h same =
    let x : ℕ × PageInfo = (key, record info { page_size = page.capacity }) in
    ground (arith, find-assign queue_impl page.address page.address x v.pages.linked same)

resize_dirty_same :
    (c : CacheManager) (page : Page) (key : ℕ) (info : PageInfo) (d : ℕ × PageInfo)
    → IsTracked c
    → OrderedMap.find queue_impl c.page_queue page.address ≡ some (key, info)
    → OrderedMap.find queue_impl (resize_queued c page).0.dirty_queue page.address ≡ some d
    → d ≡ (key, info)
unfolding resize_queued
resize_dirty_same c page key info d v h p = ground (arith, v.dirty_queued page.address d)

-- Both halves of ResizePage in a row, as they run when neither calls for memory, keep the tracking:
-- both sums are right with the new size, and each dirty entry is still a page entry.
pub resize-IsTracked :
    {c : CacheManager} (page : Page)
    → IsTracked c
    → IsTracked (resize_dirty (resize_queued c page).0 page).0
resize-IsTracked {c} page v =
    elim (Option-cases (OrderedMap.find queue_impl c.page_queue page.address)) [
      | inl h ↦ resize_absent c page v h
      | inr ((key, info), h) ↦
          let same = find-key page.address (key, info) v.pages.linked h in
          resize_dirty-IsTracked page key info (resize_queued-IsResizing page v) same
            (resize_found c page key info v h same)
            (λ d p. resize_dirty_same c page key info d v h p)
    ]
