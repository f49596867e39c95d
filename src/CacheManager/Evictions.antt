-- ===== src/CacheManager/Evictions.antt =====
-- DoPageEvictions of CacheManager.cpp, the body of the evict thread. A position of the reverse
-- iterator is the number of entries before its base: some 0 is rend(), and none is one step past it.
pub mod Select
pub mod Deleted
use andromeda_desktop_client.Common.{
  ℕ, zero, suc, ◌/◌, Bool, true, false, if◌then◌else◌, ltb, ◌==◌, List, [], ◌∷◌, ◌++◌, Option, none,
  some, get_elem?, add64, length,
}
use andromeda_desktop_client.OrderedMap
use andromeda_desktop_client.OrderedMap.{entries}
use andromeda_desktop_client.CacheManager.{
  CacheManager, PageInfo, Page, queue_impl, remove_page, enqueue_page,
}
use andromeda_desktop_client.CacheManager.Handle.{
  Outcome, done, thrown, waiting, exhausted, PageManagers, evict_page,
}

-- How the first loop ends: with the state and the entries that it visited, newest last; or by
-- reading through an iterator past the front of the list, which is undefined.
pub data Selection : Type 0 where
  selected : CacheManager → List (ℕ × PageInfo) → Selection
  undefined : Selection
  unfinished : Selection

unfoldable pub margin : CacheManager → ℕ
margin c = c.memory_limit / c.evict_size_frac

-- The loop's test, with its sums as the 64-bit sums that they are.
unfoldable pub over_margin : CacheManager → ℕ → Bool
unfolding margin
over_margin c cleaned = ltb (add64 c.memory_limit cleaned) (add64 c.current_total (margin c))

abbrev pub next_position : ℕ → Option ℕ
next_position zero = none
next_position (suc i) = some i

abbrev pub read_at : CacheManager → Option ℕ → Option (ℕ × (ℕ × PageInfo))
read_at c none = none
read_at c (some zero) = none
read_at c (some (suc i)) = elim (get_elem? (entries c.page_queue) i) [
  | none ↦ none
  | some e ↦ some (i, e)
]

-- `alive` tells which managers TryLockScope locks; the others are being deleted. RemovePage erases
-- the entry that the iterator stands on, so that the step after it passes over the next one.
unfoldable pub select :
    (ℕ → Bool) → ℕ → CacheManager → Option ℕ → ℕ → List (ℕ × PageInfo) → Selection
select alive zero c position cleaned visited = unfinished
select alive (suc fuel) c position cleaned visited = elim (over_margin c cleaned) [
  | false ↦ selected c visited
  | true ↦ elim (read_at c position) [
    | none ↦ undefined
    | some (i, e) ↦ elim (alive e.1.page_mgr) [
      | true ↦ select alive fuel c (some i) (add64 cleaned e.1.page_size) (visited ++ e ∷ [])
      | false ↦
          select alive fuel (remove_page c e.0).0 (next_position i) cleaned (visited ++ e ∷ [])
    ]
  ]
]

-- The first half of DoPageEvictions: the walk from the back of the page queue. Each round moves the
-- iterator towards the front, so the length of the queue bounds the rounds.
unfoldable pub select_evicts : (ℕ → Bool) → CacheManager → Selection
unfolding select
select_evicts alive c =
    select alive (suc (suc (length (entries c.page_queue)))) c
      (some (length (entries c.page_queue))) 0 []

-- currentEvicts: for each visited manager, in the order of the addresses, whether its scope is
-- locked, and the pages to evict.
abbrev pub Groups : Type 0
Groups = List (ℕ × (Bool × List (ℕ × PageInfo)))

unfoldable pub add_visit : (ℕ → Bool) → ℕ × PageInfo → Groups → Groups
add_visit alive e [] =
    (e.1.page_mgr, (alive e.1.page_mgr, if alive e.1.page_mgr then e ∷ [] else [])) ∷ []
add_visit alive e ((mgr, (locked, pages)) ∷ gs) =
    if mgr == e.1.page_mgr
    then (mgr, (locked, if locked then pages ++ e ∷ [] else pages)) ∷ gs
    else if ltb e.1.page_mgr mgr
    then (e.1.page_mgr, (alive e.1.page_mgr, if alive e.1.page_mgr then e ∷ [] else []))
      ∷ (mgr, (locked, pages))
      ∷ gs
    else (mgr, (locked, pages)) ∷ add_visit alive e gs

unfoldable pub group_visits : (ℕ → Bool) → List (ℕ × PageInfo) → Groups → Groups
unfolding add_visit
group_visits alive [] gs = gs
group_visits alive (e ∷ es) gs = group_visits alive es (add_visit alive e gs)

-- The handler of a BackendException: the page goes to the front, if it is still queued, and the
-- failure is noted.
unfoldable pub evict_failed : CacheManager → ℕ × PageInfo → Page → CacheManager
evict_failed c e page =
    let (removed, old_size) = remove_page c e.0 in
    let requeued = (enqueue_page removed e.1.page_mgr e.1.page_index page page.is_dirty).0 in
    let d = if ltb 0 old_size then requeued else removed in record d { evict_failure = true }

-- How the evictions end: all done, or early after a failure.
pub data Evicted : Type 0 where
  evicted_all : CacheManager → Evicted
  evicted_until : CacheManager → Evicted

-- `page_at` reads the page that a list entry refers to, when the handler needs it.
unfoldable pub evict_pages :
    PageManagers
    → (CacheManager → ℕ × PageInfo → Page)
    → CacheManager
    → List (ℕ × PageInfo)
    → Evicted
evict_pages m page_at c [] = evicted_all c
evict_pages m page_at c (e ∷ es) = elim (evict_page m c e) [
  | done d ↦ evict_pages m page_at d es
  | thrown x d ↦ evicted_until (evict_failed d e (page_at d e))
  | waiting d ↦ evicted_until d
  | exhausted ↦ evicted_until c
]

-- The second half: for each group it takes the write lock of the manager, which it notes in `locks`,
-- and evicts the pages of the group.
unfoldable pub evict_groups :
    PageManagers
    → (CacheManager → ℕ × PageInfo → Page)
    → CacheManager
    → Groups
    → List ℕ
    → Evicted × List ℕ
evict_groups m page_at c [] locks = (evicted_all c, locks)
evict_groups m page_at c ((mgr, (locked, pages)) ∷ gs) locks =
    elim (evict_pages m page_at c pages) [
      | evicted_all d ↦ evict_groups m page_at d gs (locks ++ mgr ∷ [])
      | evicted_until d ↦ (evicted_until d, locks ++ mgr ∷ [])
    ]
