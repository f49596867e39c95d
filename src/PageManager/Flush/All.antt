-- ===== src/PageManager/Flush/All.antt =====
-- FlushPages of PageManager.cpp as a whole: the runs, and then the deferred evictions.
use mathlib.Core.List.{flatten}
use andromeda_desktop_client.Common.{
  ℕ, suc, ◌≤◌, ◌<◌, ◌≡◌, refl, sym, ◌∙◌, ap, inl, inr, Bool, false, if◌then◌else◌, List, [], ◌∷◌,
  ◌++◌, none, some, arith, length, Bool-cases, Option-cases,
}
use andromeda_desktop_client.PageManager.{PageManager}
use andromeda_desktop_client.PageManager.Pages.{Page, PageMap, find_page, erase_page}
use andromeda_desktop_client.PageManager.Fetch.{Ascending}
use andromeda_desktop_client.PageManager.Flush.{
  Refuses, flushed, and_then, is_empty, clean_page, clean_pages, flush_page_list, flush_runs,
  evict_deferred, evict_page, flush_pages, remove_or_defer, run_index, write_lists,
}
use andromeda_desktop_client.PageManager.Flush.Runs.{dirty_pages, flatten-write_lists}
use andromeda_desktop_client.PageManager.Flush.Sends.{Sends}
use andromeda_desktop_client.PageManager.Flush.Requests.{flush_pages-Sends}
use andromeda_desktop_client.PageManager.Flush.Clean.{
  Ends, ends, kept, cleaned, and_then-Ends, Ends-same, flush_page_list-Ends,
}

clean_pages-append :
    (run runs ps : PageMap) → clean_pages (run ++ runs) ps ≡ clean_pages runs (clean_pages run ps)
unfolding clean_pages
clean_pages-append [] runs ps = refl
clean_pages-append ((i, p) ∷ run) runs ps = clean_pages-append run runs (clean_page i ps)

flush_runs-Ends :
    (refuses : Refuses) (m : PageManager) (runs : List PageMap)
    → Ends refuses (cleaned (flatten runs) (kept m)) (flush_runs refuses m runs)
unfolding flush_runs flatten
flush_runs-Ends refuses m [] = ends m 0 (unfold clean_pages in refl)
flush_runs-Ends refuses m (run ∷ runs) =
    and_then-Ends refuses (cleaned run (kept m)) (cleaned (run ++ flatten runs) (kept m))
      (flush_page_list refuses m (run_index run) run) (λ d _. flush_runs refuses d runs)
      (flush_page_list-Ends refuses m (run_index run) run)
      (λ d n h.
        Ends-same refuses (cleaned (flatten runs) (kept d)) (cleaned (run ++ flatten runs) (kept m))
          _
          (ap (cleaned (flatten runs)) h
            ∙ ap (λ (ps : PageMap). (ps, m.deferred_evicts))
                (sym (clean_pages-append run (flatten runs) m.pages)))
          (flush_runs-Ends refuses d runs))

-- Every page clean, with its bytes.
unfoldable pub all_clean : PageMap → PageMap
all_clean [] = []
all_clean ((i, p) ∷ ps) = (i, record p { dirty = false }) ∷ all_clean ps

clean_pages-after :
    (b j : ℕ) (p : Page) (run ps : PageMap)
    → j < b
    → Ascending b run
    → clean_pages run ((j, p) ∷ ps) ≡ (j, p) ∷ clean_pages run ps
unfolding clean_pages clean_page
clean_pages-after b j p [] ps lt a = refl
clean_pages-after b j p ((i, q) ∷ run) ps lt a =
    ground (arith, clean_pages-after (suc i) j p run (clean_page i ps) (omega (arith, lt, a.0)) a.1)

dirty_pages-Ascending : (b : ℕ) (ps : PageMap) → Ascending b ps → Ascending b (dirty_pages ps)
unfolding dirty_pages
dirty_pages-Ascending b [] a = a
dirty_pages-Ascending b ((i, p) ∷ ps) a = elim (Bool-cases p.dirty) [
  | inl e ↦ rw e (a.0, dirty_pages-Ascending (suc i) ps a.1)
  | inr e ↦ rw e (
      Ascending-below (suc i) b (dirty_pages ps) (omega (arith, a.0))
        (dirty_pages-Ascending (suc i) ps a.1))
]
  where
    Ascending-below : (c b : ℕ) (qs : PageMap) → b ≤ c → Ascending c qs → Ascending b qs
    Ascending-below c b [] h a = a
    Ascending-below c b ((j, q) ∷ qs) h a = (omega (arith, a.0), a.1)

clean_pages-dirty_pages :
    (b : ℕ) (ps : PageMap) → Ascending b ps → clean_pages (dirty_pages ps) ps ≡ all_clean ps
unfolding clean_pages dirty_pages all_clean clean_page
clean_pages-dirty_pages b [] a = refl
clean_pages-dirty_pages b ((i, p) ∷ ps) a =
    let ih = clean_pages-dirty_pages (suc i) ps a.1 in
    let later = dirty_pages-Ascending (suc i) ps a.1 in
    ground (
      arith,
      ih,
      clean_pages-after (suc i) i p (dirty_pages ps) ps (omega arith) later,
      clean_pages-after (suc i) i (record p { dirty = false }) (dirty_pages ps) ps (omega arith)
          later,
    )

erase_page-none : (i : ℕ) (ps : PageMap) → find_page i ps ≡ none → erase_page i ps ≡ ps
unfolding erase_page find_page
erase_page-none i [] h = refl
erase_page-none i ((j, p) ∷ ps) h = ground (arith, erase_page-none i ps)

erase_page-all_clean :
    (i : ℕ) (ps : PageMap) → erase_page i (all_clean ps) ≡ all_clean (erase_page i ps)
unfolding erase_page all_clean
erase_page-all_clean i [] = refl
erase_page-all_clean i ((j, p) ∷ ps) = ground (arith, erase_page-all_clean i ps)

find_page-all_clean :
    (i : ℕ) (p : Page) (ps : PageMap) → find_page i (all_clean ps) ≡ some p → p.dirty ≡ false
unfolding find_page all_clean
find_page-all_clean i p [] h = absurd (cc)
find_page-all_clean i p ((j, q) ∷ ps) h = ground (arith, find_page-all_clean i p ps)

abbrev clean_state : PageMap → List ℕ → PageMap × List ℕ
clean_state ps is = (all_clean ps, is)

-- Evicting a clean page erases it without a request.
evict_page-clean :
    (refuses : Refuses) (max_write : ℕ) (rand_write : Bool) (m : PageManager) (i : ℕ)
    → ((p : Page) → find_page i m.pages ≡ some p → p.dirty ≡ false)
    → evict_page refuses max_write rand_write m i
      ≡ flushed (record m { pages = erase_page i m.pages }) 0
unfolding evict_page remove_or_defer
evict_page-clean refuses max_write rand_write m i h = elim (Option-cases (find_page i m.pages)) [
  | inl e ↦ rw (e, evict_page, erase_page-none i m.pages e) refl
  | inr (p, e) ↦ rw (e, evict_page, h p e) (rw (e, remove_or_defer, h p e) refl)
]

unfoldable pub erase_pages : List ℕ → PageMap → PageMap
erase_pages [] ps = ps
erase_pages (i ∷ is) ps = erase_pages is (erase_page i ps)

evict_deferred-Ends :
    (refuses : Refuses) (max_write : ℕ) (rand_write : Bool) (m : PageManager) (is ds : List ℕ)
    (ps : PageMap)
    → kept m ≡ clean_state ps ds
    → Ends refuses
        (clean_state (erase_pages is ps) ds)
        (evict_deferred refuses max_write rand_write m is)
unfolding evict_deferred erase_pages
evict_deferred-Ends refuses max_write rand_write m [] ds ps h = ends m 0 h
evict_deferred-Ends refuses max_write rand_write m (i ∷ is) ds ps h =
    let erased = record m { pages = erase_page i m.pages } in
    let e = evict_page-clean refuses max_write rand_write m i (λ p g.
      find_page-all_clean i p ps (sym (ap (λ (k : PageMap × List ℕ). find_page i k.0) h) ∙ g)) in
    rw e (
      evict_deferred-Ends refuses max_write rand_write erased is ds (erase_page i ps) (
        ap (λ (k : PageMap × List ℕ). (erase_page i k.0, k.1)) h
        ∙ ap (λ (qs : PageMap). (qs, ds)) (erase_page-all_clean i ps)))

collect-Ends :
    (refuses : Refuses) (m : PageManager) (runs : List PageMap)
    → Ends refuses
        (cleaned (flatten runs) (kept m))
        (if is_empty runs then flush_page_list refuses m 0 [] else flush_runs refuses m runs)
unfolding flatten
collect-Ends refuses m [] = flush_page_list-Ends refuses m 0 []
collect-Ends refuses m (run ∷ runs) = flush_runs-Ends refuses m (run ∷ runs)

flush_pages-clean :
    (refuses : Refuses) (max_write : ℕ) (rand_write : Bool) (m : PageManager)
    → Ascending 0 m.pages
    → Ends refuses
        (all_clean (erase_pages m.deferred_evicts m.pages), [])
        (flush_pages refuses max_write rand_write m)
unfolding flush_pages
flush_pages-clean refuses max_write rand_write m a =
    let runs = write_lists max_write (suc (length m.pages)) m.pages in
    let all : cleaned (flatten runs) (kept m) ≡ clean_state m.pages m.deferred_evicts =
      ap (λ (run : PageMap). cleaned run (kept m))
        (flatten-write_lists max_write (suc (length m.pages)) m.pages (omega arith))
      ∙ ap (λ (ps : PageMap). (ps, m.deferred_evicts)) (clean_pages-dirty_pages 0 m.pages a) in
    and_then-Ends refuses (cleaned (flatten runs) (kept m))
      (all_clean (erase_pages m.deferred_evicts m.pages), [])
      (if is_empty runs then flush_page_list refuses m 0 [] else flush_runs refuses m runs)
      (λ d _.
        and_then (evict_deferred refuses max_write rand_write d d.deferred_evicts)
          (λ e _. flushed (record e { deferred_evicts = [] }) 0))
      (collect-Ends refuses m runs) (λ d n h. evicts_Ends d (h ∙ all))
  where
    evicts_Ends :
        (d : PageManager)
        → kept d ≡ clean_state m.pages m.deferred_evicts
        → Ends refuses
            (all_clean (erase_pages m.deferred_evicts m.pages), [])
            (and_then
              (evict_deferred refuses max_write rand_write d d.deferred_evicts)
              (λ e _. flushed (record e { deferred_evicts = [] }) 0))
    evicts_Ends d h =
        let is : d.deferred_evicts ≡ m.deferred_evicts = ap (λ (k : PageMap × List ℕ). k.1) h in
        let after : List ℕ → PageMap × List ℕ = λ ds. (all_clean (erase_pages ds m.pages), []) in
        Ends-same refuses (after d.deferred_evicts) (after m.deferred_evicts) _ (ap after is) (
          and_then-Ends refuses
            (clean_state (erase_pages d.deferred_evicts m.pages) m.deferred_evicts)
            (after d.deferred_evicts)
            (evict_deferred refuses max_write rand_write d d.deferred_evicts)
            (λ e _. flushed (record e { deferred_evicts = [] }) 0)
            (evict_deferred-Ends refuses max_write rand_write d d.deferred_evicts m.deferred_evicts
              m.pages h)
            (λ e n k.
              ends (record e { deferred_evicts = [] }) 0
                (ap (λ (k : PageMap × List ℕ). (k.0, [])) k)))

-- FlushPages writes back all: unless the server refuses a request, it ends with no deferred
-- eviction left and with every page of the map clean and its bytes unchanged, except that the
-- pages whose eviction was deferred are gone; and the server has accepted, for each list of pages
-- that it collects, a request that writes the bytes of the list, which end behind a page that is
-- shorter than a whole one, at the start of its first page, or one that uploads them as the file if
-- that is page 0. The map is in the order of its indices.
pub flush_pages-Ends :
    (refuses : Refuses) (max_write : ℕ) (rand_write : Bool) (m : PageManager)
    → Ascending 0 m.pages
    → Ends refuses
        (all_clean (erase_pages m.deferred_evicts m.pages), [])
        (flush_pages refuses max_write rand_write m)
      × Sends m.page_size
          (write_lists max_write (suc (length m.pages)) m.pages)
          (flush_pages refuses max_write rand_write m)
flush_pages-Ends refuses max_write rand_write m a = (
  flush_pages-clean refuses max_write rand_write m a,
  flush_pages-Sends refuses m.page_size max_write rand_write m refl,
)
