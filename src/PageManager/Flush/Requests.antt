-- ===== src/PageManager/Flush/Requests.antt =====
-- Which requests FlushPages of PageManager.cpp sends: all lists of pages, and the deferred evictions.
use mathlib.Core.List.{append-nil}
use andromeda_desktop_client.Common.{
  ℕ, suc, ◌+◌, ◌*◌, ◌≡◌, Bool, true, not, ◌&&◌, if◌then◌else◌, ◌||◌, List, [], ◌∷◌, ◌++◌,
  Bool-cases, Option-cases, inl, inr, max, length, subst,
}
use andromeda_desktop_client.PageManager.{PageManager, Request, upload, write}
use andromeda_desktop_client.PageManager.Pages.{PageMap, find_page}
use andromeda_desktop_client.PageManager.Flush.{
  total_bytes, run_bytes, Refuses, Flushed, flushed, refused, and_then, request, is_empty,
  backend_flush, create_before, send_pages, flush_create, clean_pages, flush_page_list, pages_from,
  write_list, write_lists, remove_or_defer, evict_page, run_index, flush_runs, evict_deferred,
  flush_pages,
}
use andromeda_desktop_client.PageManager.Flush.Sends.{
  AllSent, AllSent-more, Log, Sends, and_then-Sends, if-Sends, request-Sends, create_before-Sends,
  flush_create-Sends, flush_page_list-Sends,
}

module _ (refuses : Refuses) (s : ℕ) where
  -- What was sent before stays sent.
  send_pages-keeps :
      (runs : List PageMap) (m : PageManager) (index : ℕ) (run : PageMap)
      → Log s runs m
      → Sends s runs (send_pages refuses m index run)
  unfolding send_pages
  send_pages-keeps runs m index run h =
      if-Sends refuses s runs m.backend_exists _ _
        (λ _. sends (write (index * m.page_size) (run_bytes m.page_size run)))
        (λ _. sends (upload (run_bytes m.page_size run)))
    where
      after : PageManager
      after = record m {
        backend_exists = true;
        backend_size = max m.backend_size (index * m.page_size + total_bytes run);
      }

      sends : (r : Request) → Sends s runs (request refuses m r after (total_bytes run))
      sends r =
          request-Sends refuses s runs m after r (total_bytes run) h.0
            (AllSent-more s runs r m.requests h.1)

  flush_page_list-keeps :
      (runs : List PageMap) (m : PageManager) (index : ℕ) (run : PageMap)
      → Log s runs m
      → Sends s runs (flush_page_list refuses m index run)
  unfolding flush_page_list backend_flush
  flush_page_list-keeps runs m index run h =
      and_then-Sends refuses s runs runs
        (if is_empty run then flushed m 0 else backend_flush refuses m index run) _
        (if-Sends refuses s runs (is_empty run) _ _ (λ _. h)
          (λ _.
            and_then-Sends refuses s runs runs (create_before refuses m index)
              (λ d _. send_pages refuses d index run) (create_before-Sends refuses s runs m index h)
              (λ d n k. send_pages-keeps runs d index run k)))
        (λ d total k.
          if-Sends refuses s runs m.backend_exists _ _ (λ _. k)
            (λ _.
              and_then-Sends refuses s runs runs
                (flush_create refuses (record d { pages = clean_pages run d.pages })) _
                (flush_create-Sends refuses s runs (record d { pages = clean_pages run d.pages }) k)
                (λ e n l. l)))

  remove_or_defer-keeps :
      (runs : List PageMap) (rand_write : Bool) (i : ℕ) (m : PageManager)
      → Log s runs m
      → Log s runs (remove_or_defer rand_write i m)
  unfolding remove_or_defer
  remove_or_defer-keeps runs rand_write i m h = elim (Option-cases (find_page i m.pages)) [
    | inl e ↦ rw (e, remove_or_defer) h
    | inr (p, e) ↦
        rw (e, remove_or_defer)
          (elim (Bool-cases (not p.dirty || rand_write)) [ inl d ↦ rw d h | inr d ↦ rw d h ])
  ]

  evict_page-keeps :
      (runs : List PageMap) (max_write : ℕ) (rand_write : Bool) (m : PageManager) (i : ℕ)
      → Log s runs m
      → Sends s runs (evict_page refuses max_write rand_write m i)
  unfolding evict_page
  evict_page-keeps runs max_write rand_write m i h = elim (Option-cases (find_page i m.pages)) [
    | inl e ↦ rw (e, evict_page) h
    | inr (p, e) ↦
        rw (e, evict_page)
          (and_then-Sends refuses s runs runs _
            (λ d written. flushed (remove_or_defer rand_write i d) written)
            (if-Sends refuses s runs (p.dirty && rand_write) _ _
              (λ _.
                flush_page_list-keeps runs m i
                  (write_list max_write 0 0 [] (pages_from i m.pages)).0 h)
              (λ _. h))
            (λ d n k. remove_or_defer-keeps runs rand_write i d k))
  ]

  evict_deferred-keeps :
      (runs : List PageMap) (max_write : ℕ) (rand_write : Bool) (m : PageManager) (is : List ℕ)
      → Log s runs m
      → Sends s runs (evict_deferred refuses max_write rand_write m is)
  unfolding evict_deferred
  evict_deferred-keeps runs max_write rand_write m [] h = h
  evict_deferred-keeps runs max_write rand_write m (i ∷ is) h =
      and_then-Sends refuses s runs runs (evict_page refuses max_write rand_write m i)
        (λ d _. evict_deferred refuses max_write rand_write d is)
        (evict_page-keeps runs max_write rand_write m i h)
        (λ d n k. evict_deferred-keeps runs max_write rand_write d is k)

  AllSent-move :
      (runs : List PageMap) (run : PageMap) (done : List PageMap) (rs : List Request)
      → AllSent s (runs ++ run ∷ done) rs
      → AllSent s (run ∷ runs ++ done) rs
  AllSent-move [] run done rs h = h
  AllSent-move (q ∷ runs) run done rs (h, k) =
      let (l, j) = AllSent-move runs run done rs k in (l, (h, j))

  flush_runs-Sends :
      (done : List PageMap) (m : PageManager) (runs : List PageMap)
      → Log s done m
      → Sends s (runs ++ done) (flush_runs refuses m runs)
  unfolding flush_runs
  flush_runs-Sends done m [] h = h
  flush_runs-Sends done m (run ∷ runs) h =
      and_then-Sends refuses s (run ∷ done) (run ∷ runs ++ done)
        (flush_page_list refuses m (run_index run) run) (λ d _. flush_runs refuses d runs)
        (flush_page_list-Sends refuses s done m run h)
        (λ d n k. moved (flush_runs refuses d runs) (flush_runs-Sends (run ∷ done) d runs k))
    where
      moved : (f : Flushed) → Sends s (runs ++ run ∷ done) f → Sends s (run ∷ runs ++ done) f
      moved (flushed d n) (e, k) = (e, AllSent-move runs run done d.requests k)
      moved (refused d) k = tt

  pub flush_pages-Sends :
      (max_write : ℕ) (rand_write : Bool) (m : PageManager)
      → m.page_size ≡ s
      → Sends s
          (write_lists max_write (suc (length m.pages)) m.pages)
          (flush_pages refuses max_write rand_write m)
  unfolding flush_pages
  flush_pages-Sends max_write rand_write m e =
      let runs = write_lists max_write (suc (length m.pages)) m.pages in
      and_then-Sends refuses s runs runs
        (if is_empty runs then flush_page_list refuses m 0 [] else flush_runs refuses m runs)
        (λ d _.
          and_then (evict_deferred refuses max_write rand_write d d.deferred_evicts)
            (λ c _. flushed (record c { deferred_evicts = [] }) 0))
        (first runs)
        (λ d n h.
          and_then-Sends refuses s runs runs
            (evict_deferred refuses max_write rand_write d d.deferred_evicts)
            (λ c _. flushed (record c { deferred_evicts = [] }) 0)
            (evict_deferred-keeps runs max_write rand_write d d.deferred_evicts h) (λ c n k. k))
    where
      first :
          (runs : List PageMap)
          → Sends s runs
              (if is_empty runs then flush_page_list refuses m 0 [] else flush_runs refuses m runs)
      first [] = flush_page_list-keeps [] m 0 [] (e, tt)
      first (run ∷ runs) =
          subst (λ l. Sends s l (flush_runs refuses m (run ∷ runs))) (append-nil (run ∷ runs))
            (flush_runs-Sends [] m (run ∷ runs) (e, tt))
