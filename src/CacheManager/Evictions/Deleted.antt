-- ===== src/CacheManager/Evictions/Deleted.antt =====
-- DoPageEvictions of CacheManager.cpp with pages of a manager that is being deleted.
use mathlib.Core.List.{append_assoc, append-nil}
use andromeda_desktop_client.Common.{
  ℕ, ◌≡◌, refl, ◌∙◌, ap, Bool, true, false, ◌||◌, ◌==◌, List, [], ◌∷◌, ◌++◌, map, arith,
}
use andromeda_desktop_client.OrderedMap.{entries}
use andromeda_desktop_client.CacheManager.{CacheManager, PageInfo, Page, remove_page}
use andromeda_desktop_client.CacheManager.Handle.{PageManagers}
use andromeda_desktop_client.CacheManager.Evictions.{
  undefined, over_margin, select, select_evicts, Groups, add_visit, group_visits, Evicted,
  evicted_all, evicted_until, evict_pages, evict_groups,
}

-- The step after RemovePage passes over an entry: with two queued pages, both of managers that are
-- being deleted, and the memory over its margin also after the older one is gone, the walk goes
-- past the front of the list and reads there.
pub select_evicts-undefined :
    (alive : ℕ → Bool) (c : CacheManager) (a b : ℕ × PageInfo)
    → entries c.page_queue ≡ a ∷ b ∷ []
    → alive b.1.page_mgr ≡ false
    → over_margin c 0 ≡ true
    → over_margin (remove_page c b.0).0 0 ≡ true
    → select_evicts alive c ≡ undefined
unfolding select_evicts select
select_evicts-undefined alive c a b h dead over still =
    rw (h, select_evicts)
      (rw (over, select) (rw (h, select) (rw (dead, select) (rw (still, select)))))

abbrev pub contains : ℕ → List ℕ → Bool
contains x [] = false
contains x (y ∷ ys) = y == x || contains x ys

abbrev pub managers : Groups → List ℕ
managers = map (λ g. g.0)

add_visit-managers :
    (alive : ℕ → Bool) (e : ℕ × PageInfo) (gs : Groups) (mgr : ℕ)
    → contains mgr (managers (add_visit alive e gs))
      ≡ (e.1.page_mgr == mgr || contains mgr (managers gs))
unfolding add_visit
add_visit-managers alive e [] mgr = refl
add_visit-managers alive e ((g, (locked, pages)) ∷ gs) mgr =
    ground (arith, add_visit-managers alive e gs mgr)

abbrev pub owners : List (ℕ × PageInfo) → List ℕ
owners = map (λ e. e.1.page_mgr)

group_visits-managers :
    (alive : ℕ → Bool) (es : List (ℕ × PageInfo)) (gs : Groups) (mgr : ℕ)
    → contains mgr (managers (group_visits alive es gs))
      ≡ (contains mgr (owners es) || contains mgr (managers gs))
unfolding group_visits
group_visits-managers alive [] gs mgr = refl
group_visits-managers alive (e ∷ es) gs mgr = ground (
  arith,
  group_visits-managers alive es (add_visit alive e gs) mgr,
  add_visit-managers alive e gs mgr,
)

evict_groups-locks :
    (m : PageManagers) (page_at : CacheManager → ℕ × PageInfo → Page) (c d : CacheManager)
    (gs : Groups) (locks taken : List ℕ)
    → evict_groups m page_at c gs locks ≡ (evicted_all d, taken)
    → taken ≡ locks ++ managers gs
unfolding evict_groups
evict_groups-locks m page_at c d [] locks taken h = ground (arith, append-nil locks)
evict_groups-locks m page_at c d ((mgr, (locked, pages)) ∷ gs) locks taken h =
    go (evict_pages m page_at c pages) refl
      (λ x. evict_groups-locks m page_at x d gs (locks ++ mgr ∷ []) taken)
  where
    go :
        (r : Evicted)
        → evict_pages m page_at c pages ≡ r
        → ((x : CacheManager)
            → evict_groups m page_at x gs (locks ++ mgr ∷ []) ≡ (evicted_all d, taken)
            → taken ≡ (locks ++ mgr ∷ []) ++ managers gs)
        → taken ≡ locks ++ mgr ∷ managers gs
    go (evicted_all x) p k =
        k x (rw (p, evict_groups) at h) ∙ append_assoc locks (mgr ∷ []) (managers gs)
    go (evicted_until x) p k = absurd (
        impossible (evict_groups m page_at c ((mgr, (locked, pages)) ∷ gs) locks)
          (rw (p, evict_groups)) h)
      where
        impossible :
            (o : Evicted × List ℕ)
            → o ≡ (evicted_until x, locks ++ mgr ∷ [])
            → o ≡ (evicted_all d, taken)
            → ⊥
        impossible o a b = cc

-- Where no eviction fails, the second half takes the write lock of every manager that owns a visited
-- page, also of one whose scope lock failed because it is being deleted.
pub evict_groups-locks_all :
    (m : PageManagers) (page_at : CacheManager → ℕ × PageInfo → Page) (c d : CacheManager)
    (alive : ℕ → Bool) (visited : List (ℕ × PageInfo)) (taken : List ℕ) (mgr : ℕ)
    → contains mgr (owners visited) ≡ true
    → evict_groups m page_at c (group_visits alive visited []) [] ≡ (evicted_all d, taken)
    → contains mgr taken ≡ true
evict_groups-locks_all m page_at c d alive visited taken mgr owned h =
    ap (contains mgr) (evict_groups-locks m page_at c d (group_visits alive visited []) [] taken h)
    ∙ group_visits-managers alive visited [] mgr
    ∙ ground (arith, owned)
