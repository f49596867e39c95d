-- ===== src/PageManager/Flush/Clean.antt =====
-- What one call of FlushPageList of PageManager.cpp does to the pages.
use andromeda_desktop_client.Common.{
  ℕ, ◌+◌, ◌*◌, ◌≡◌, refl, sym, ap, inl, inr, Bool, true, false, not, ◌&&◌, if◌then◌else◌, ltb, ◌==◌,
  List, [], ◌∷◌, ◌++◌, Bool-cases, max,
}
use andromeda_desktop_client.PageManager.{PageManager, Request, create, upload, write, cut}
use andromeda_desktop_client.PageManager.Pages.{PageMap}
use andromeda_desktop_client.PageManager.Flush.{
  total_bytes, run_bytes, max_dirty, Refuses, Flushed, flushed, refused, and_then, request,
  is_empty, backend_flush, create_before, send_pages, flush_create, backend_truncate, clean_pages,
  flush_page_list,
}

-- The server has refused some request.
abbrev pub Refusal : Refuses → Type 0
Refusal refuses = (m : PageManager) × (r : Request) × (refuses m r ≡ true)

-- What no request changes: the pages and the deferred evictions.
abbrev pub kept : PageManager → PageMap × List ℕ
kept m = (m.pages, m.deferred_evicts)

abbrev pub cleaned : PageMap → PageMap × List ℕ → PageMap × List ℕ
cleaned run (ps, is) = (clean_pages run ps, is)

-- A step ends with the given pages and deferred evictions, unless the server has refused a request.
pub data Ends (refuses : Refuses) (ps : PageMap × List ℕ) : Flushed → Type 0 where
  ends : (m : PageManager) (n : ℕ) → kept m ≡ ps → Ends refuses ps (flushed m n)
  refusal : (m : PageManager) → Refusal refuses → Ends refuses ps (refused m)

pub and_then-Ends :
    (refuses : Refuses) (ps qs : PageMap × List ℕ) (f : Flushed) (g : PageManager → ℕ → Flushed)
    → Ends refuses ps f
    → ((m : PageManager) (n : ℕ) → kept m ≡ ps → Ends refuses qs (g m n))
    → Ends refuses qs (and_then f g)
and_then-Ends refuses ps qs (flushed m n) g (ends d l h) k = k d l h
and_then-Ends refuses ps qs (refused m) g (refusal d r) k = refusal d r

request-Ends :
    (refuses : Refuses) (ps : PageMap × List ℕ) (m after : PageManager) (r : Request) (n : ℕ)
    → kept after ≡ ps
    → Ends refuses ps (request refuses m r after n)
request-Ends refuses ps m after r n h = elim (Bool-cases (refuses m r)) [
  | inl e ↦ rw e (refusal m (m, r, e))
  | inr e ↦ rw e (ends (record after { requests = m.requests ++ r ∷ [] }) n h)
]

pub if-Ends :
    (refuses : Refuses) (ps : PageMap × List ℕ) (b : Bool) (f g : Flushed)
    → Ends refuses ps f
    → Ends refuses ps g
    → Ends refuses ps (if b then f else g)
if-Ends refuses ps true f g h k = h
if-Ends refuses ps false f g h k = k

-- The requests of PageBackend change no page.
create_before-Ends :
    (refuses : Refuses) (m : PageManager) (index : ℕ)
    → Ends refuses (kept m) (create_before refuses m index)
unfolding create_before
create_before-Ends refuses m index =
    if-Ends refuses (kept m) (not m.backend_exists && not (index == 0)) _ _
      (request-Ends refuses (kept m) m (record m { backend_exists = true }) create 0 refl)
      (ends m 0 refl)

send_pages-Ends :
    (refuses : Refuses) (m : PageManager) (index : ℕ) (run : PageMap)
    → Ends refuses (kept m) (send_pages refuses m index run)
unfolding send_pages
send_pages-Ends refuses m index run =
    let total = total_bytes run in
    let after = record m {
      backend_exists = true;
      backend_size = max m.backend_size (index * m.page_size + total);
    } in
    if-Ends refuses (kept m) m.backend_exists _ _
      (request-Ends refuses (kept m) m after
        (write (index * m.page_size) (run_bytes m.page_size run)) total refl)
      (request-Ends refuses (kept m) m after (upload (run_bytes m.page_size run)) total refl)

pub Ends-same :
    (refuses : Refuses) (ps qs : PageMap × List ℕ) (f : Flushed)
    → ps ≡ qs
    → Ends refuses ps f
    → Ends refuses qs f
Ends-same refuses ps qs f e h = rw (sym e) h

backend_flush-Ends :
    (refuses : Refuses) (m : PageManager) (index : ℕ) (run : PageMap)
    → Ends refuses (kept m) (backend_flush refuses m index run)
unfolding backend_flush
backend_flush-Ends refuses m index run =
    and_then-Ends refuses (kept m) (kept m) (create_before refuses m index)
      (λ d _. send_pages refuses d index run) (create_before-Ends refuses m index)
      (λ d n h. Ends-same refuses (kept d) (kept m) _ h (send_pages-Ends refuses d index run))

backend_truncate-Ends :
    (refuses : Refuses) (m : PageManager) (size : ℕ)
    → Ends refuses (kept m) (backend_truncate refuses m size)
unfolding backend_truncate
backend_truncate-Ends refuses m size =
    if-Ends refuses (kept m) (m.backend_exists && not (m.backend_size == size)) _ _
      (request-Ends refuses (kept m) m (record m { backend_size = size }) (cut size) 0 refl)
      (ends m 0 refl)

flush_create-Ends :
    (refuses : Refuses) (m : PageManager) → Ends refuses (kept m) (flush_create refuses m)
unfolding flush_create
flush_create-Ends refuses m =
    and_then-Ends refuses (kept m) (kept m) _ _
      (if-Ends refuses (kept m) m.backend_exists _ _ (ends m 0 refl)
        (request-Ends refuses (kept m) m (record m { backend_exists = true }) create 0 refl))
      (λ d n h. Ends-same refuses (kept d) (kept m) _ h (
        if-Ends refuses (kept d)
          (ltb (max d.backend_size (max_dirty d.page_size d.pages)) d.file_size) _ _
          (backend_truncate-Ends refuses d d.file_size) (ends d 0 refl)))

pub flush_page_list-Ends :
    (refuses : Refuses) (m : PageManager) (index : ℕ) (run : PageMap)
    → Ends refuses (cleaned run (kept m)) (flush_page_list refuses m index run)
unfolding flush_page_list
flush_page_list-Ends refuses m index run =
    and_then-Ends refuses (kept m) (cleaned run (kept m))
      (if is_empty run then flushed m 0 else backend_flush refuses m index run) _
      (if-Ends refuses (kept m) (is_empty run) _ _ (ends m 0 refl)
        (backend_flush-Ends refuses m index run))
      (λ d total h.
        Ends-same refuses (cleaned run (kept d)) (cleaned run (kept m)) _ (ap (cleaned run) h)
          (after_clean d total))
  where
    after_clean :
        (d : PageManager) (total : ℕ)
        → Ends refuses (cleaned run (kept d)) (
            if m.backend_exists
            then flushed (record d { pages = clean_pages run d.pages }) total
            else and_then
                (flush_create refuses (record d { pages = clean_pages run d.pages }))
                (λ e _. flushed e total))
    after_clean d total =
        let c = record d { pages = clean_pages run d.pages } in
        if-Ends refuses (kept c) m.backend_exists _ _ (ends c total refl) (
          and_then-Ends refuses (kept c) (kept c) (flush_create refuses c) (λ e _. flushed e total)
            (flush_create-Ends refuses c) (λ e n k. ends e total k))
