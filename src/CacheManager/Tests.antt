-- ===== src/CacheManager/Tests.antt =====
-- Tests of the model of CacheManager.cpp, and its theorems at concrete states.
use andromeda_desktop_client.Common.{
  ℕ, ◌<◌, ◌≡◌, refl, true, false, List, [], ◌∷◌, some, ℕ_discrete, arith, add64, sub64, ◌∙◌, sym,
}
use andromeda_desktop_client.OrderedMap
use andromeda_desktop_client.OrderedMap.{entries}
use andromeda_desktop_client.OrderedMap.Store.{
  table_find, table_set, table_erase, node_erase, node_find,
}
use andromeda_desktop_client.CacheManager.Sizes.{total_size}
use andromeda_desktop_client.CacheManager.Counted.{size_of}
use andromeda_desktop_client.CacheManager.Tracking.{
  IsTracked, init-IsTracked, enqueue_page-IsTracked,
}
use andromeda_desktop_client.CacheManager.Handle.{
  PageManagers, Caller, handle_memory, inform_page, sync_evict,
}
use andromeda_desktop_client.CacheManager.Ends.{Ends}
use andromeda_desktop_client.CacheManager.Inform.{inform_page-Ends}
use andromeda_desktop_client.CacheManager.Answers.{Answers, handle_memory-Answers}
use andromeda_desktop_client.CacheManager.Keeps.{sync_evict-keeps_page}
use andromeda_desktop_client.CacheManager.Evictions.{
  selected, undefined, over_margin, margin, select_evicts, evict_groups, group_visits, evicted_all,
  evict_pages,
}
use andromeda_desktop_client.CacheManager.Evictions.Select.{Fits, Suffices, select_evicts-Suffices}
use andromeda_desktop_client.CacheManager.Evictions.Deleted.{
  select_evicts-undefined, evict_groups-locks_all, contains,
}
use andromeda_desktop_client.CacheManager.{
  CacheManager, Page, PageInfo, queue_impl, page_info, init, enqueue_page, remove_page,
  remove_queued, remove_dirty,
}

abbrev page_a : Page
page_a = record { address = 4096; capacity = 60; is_dirty = false }

abbrev page_b : Page
page_b = record { address = 8192; capacity = 70; is_dirty = true }

abbrev page_c : Page
page_c = record { address = 12288; capacity = 40; is_dirty = false }

-- A limit of 100 bytes with a margin of 25; page_b is dirty and at the front.
one_page : CacheManager
unfolding enqueue_page init
one_page = (enqueue_page (init 100 4) 1 0 page_a false).0

two_pages : CacheManager
unfolding one_page
two_pages = (enqueue_page one_page 2 1 page_b true).0

two_pages-IsTracked : IsTracked two_pages
unfolding two_pages
two_pages-IsTracked =
    enqueue_page-IsTracked 2 1 page_b true
      (enqueue_page-IsTracked 1 0 page_a false (init-IsTracked 100 4))

-- Managers whose writes never fail and which flush no more than they are told.
abbrev obedient : PageManagers
obedient = record {
  evicted = λ c e. ([], false);
  flushed = λ c e. ([], false);
  measured_limit = λ c e. 1000;
}

abbrev caller : Caller
caller = record {
  manager = 1;
  page = 12288;
  can_wait = true;
  has_lock = true;
  thread_runs = true;
  wakes = [];
}

two_pages_order : entries two_pages.page_queue ≡ page_info 2 1 page_b ∷ page_info 1 0 page_a ∷ []
unfolding two_pages remove_page remove_queued remove_dirty OrderedMap.find OrderedMap.empty_map
    OrderedMap.enqueue_front table_find table_set table_erase ℕ_discrete
two_pages_order = refl

two_pages_total : two_pages.current_total ≡ 130
unfolding two_pages remove_page remove_queued remove_dirty OrderedMap.find OrderedMap.empty_map
    OrderedMap.enqueue_front table_find table_set table_erase ℕ_discrete add64
two_pages_total = refl

two_pages_size : size_of two_pages.page_queue ≡ 130
unfolding two_pages remove_page remove_queued remove_dirty OrderedMap.find OrderedMap.empty_map
    OrderedMap.enqueue_front table_find table_set table_erase ℕ_discrete total_size
two_pages_size = refl

two_pages_limits : (two_pages.memory_limit ≡ 100) × (two_pages.evict_size_frac ≡ 4)
unfolding two_pages remove_page remove_queued remove_dirty OrderedMap.find OrderedMap.empty_map
    OrderedMap.enqueue_front table_find table_set table_erase ℕ_discrete
two_pages_limits = (refl, refl)

inform_page-Ends_example :
    Ends IsTracked (inform_page obedient caller caller 2 page_c false two_pages)
inform_page-Ends_example =
    inform_page-Ends obedient caller caller 2 page_c false two_pages tt tt two_pages-IsTracked

handle_memory-Answers_example : Answers 1 caller.wakes (handle_memory obedient caller two_pages)
handle_memory-Answers_example =
    handle_memory-Answers obedient caller two_pages refl refl two_pages-IsTracked

two_pages_find : OrderedMap.find queue_impl two_pages.page_queue 8192 ≡ some (page_info 2 1 page_b)
unfolding two_pages remove_page remove_queued remove_dirty OrderedMap.find OrderedMap.empty_map
    OrderedMap.enqueue_front table_find table_set table_erase node_find ℕ_discrete
two_pages_find = refl

two_pages_length : OrderedMap.size two_pages.page_queue < 3
unfolding OrderedMap.size two_pages remove_page remove_queued remove_dirty OrderedMap.find
    OrderedMap.empty_map OrderedMap.enqueue_front table_find table_set table_erase ℕ_discrete
two_pages_length = omega arith

sync_evict-keeps_page_example :
    Ends
      (λ d. OrderedMap.find queue_impl d.page_queue 8192 ≡ some (page_info 2 1 page_b))
      (sync_evict obedient 1 8192 3 two_pages)
sync_evict-keeps_page_example =
    sync_evict-keeps_page obedient 1 8192 3 two_pages (page_info 2 1 page_b) two_pages_length
      two_pages-IsTracked two_pages_find

two_pages-Fits : Fits two_pages
unfolding margin
two_pages-Fits =
    let (limit, frac) = two_pages_limits in
    record {
      exact = two_pages_total ∙ sym two_pages_size;
      sums = rw (two_pages_size, limit) (omega arith);
      margin_le = rw (limit, frac) (omega arith);
    }

select_evicts-Suffices_example :
    (v : List (ℕ × PageInfo)) × (select_evicts (λ mgr. true) two_pages ≡ selected two_pages v)
    × Suffices two_pages v
select_evicts-Suffices_example =
    select_evicts-Suffices (λ mgr. true) two_pages (λ mgr. refl) two_pages-Fits

abbrev page_a_small : Page
page_a_small = record { address = 4096; capacity = 20; is_dirty = false }

-- Both managers are being deleted: without page_a the memory is still 70 + 25 bytes of a limit of 90.
tight : CacheManager
unfolding two_pages
tight = record two_pages { memory_limit = 90; evict_size_frac = 3 }

tight_order : entries tight.page_queue ≡ page_info 2 1 page_b ∷ page_info 1 0 page_a ∷ []
unfolding tight remove_page remove_queued remove_dirty OrderedMap.find OrderedMap.empty_map
    OrderedMap.enqueue_front table_find table_set table_erase ℕ_discrete
tight_order = refl

tight_over : over_margin tight 0 ≡ true
unfolding over_margin tight remove_page remove_queued remove_dirty OrderedMap.find
    OrderedMap.empty_map OrderedMap.enqueue_front table_find table_set table_erase ℕ_discrete add64
tight_over = refl

tight_still_over : over_margin (remove_page tight 4096).0 0 ≡ true
unfolding over_margin tight remove_page remove_queued remove_dirty OrderedMap.find OrderedMap.erase
    OrderedMap.empty_map OrderedMap.enqueue_front table_find table_set table_erase node_find
    node_erase ℕ_discrete add64 sub64
tight_still_over = refl

select_evicts-undefined_example : select_evicts (λ mgr. false) tight ≡ undefined
select_evicts-undefined_example =
    select_evicts-undefined (λ mgr. false) tight (page_info 2 1 page_b) (page_info 1 0 page_a)
      tight_order refl tight_over tight_still_over

abbrev visited : List (ℕ × PageInfo)
visited = page_info 1 0 page_a ∷ []

no_pages_left :
    evict_groups obedient (λ c e. page_a) two_pages (group_visits (λ mgr. false) visited []) []
    ≡ (evicted_all two_pages, 1 ∷ [])
unfolding evict_groups group_visits evict_pages
no_pages_left = refl

evict_groups-locks_all_example : contains 1 (1 ∷ []) ≡ true
evict_groups-locks_all_example =
    evict_groups-locks_all obedient (λ c e. page_a) two_pages two_pages (λ mgr. false) visited
      (1 ∷ []) 1 refl no_pages_left
