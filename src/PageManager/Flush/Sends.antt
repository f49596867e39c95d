-- ===== src/PageManager/Flush/Sends.antt =====
-- Which requests FlushPages of PageManager.cpp sends.
use andromeda_desktop_client.Common.{
  ℕ, ◌+◌, ◌*◌, ◌≡◌, ◌⊎◌, refl, inl, inr, Bool, true, false, not, ◌&&◌, if◌then◌else◌, ltb, ◌==◌,
  List, [], ◌∷◌, ◌++◌, arith, Bool-cases, max, subst,
}
use andromeda_desktop_client.PageManager.{PageManager, Request, create, upload, write, cut}
use andromeda_desktop_client.PageManager.Pages.{PageMap}
use andromeda_desktop_client.PageManager.Flush.{
  total_bytes, run_bytes, max_dirty, Refuses, Flushed, flushed, refused, and_then, request,
  is_empty, backend_flush, create_before, send_pages, flush_create, backend_truncate, clean_pages,
  flush_page_list, run_index,
}

-- A request is in the list.
abbrev pub Listed : Request → List Request → Type 0
Listed r [] = ⊥
Listed r (q ∷ rs) = (r ≡ q) ⊎ Listed r rs

Listed-last : (r : Request) (rs : List Request) → Listed r (rs ++ r ∷ [])
Listed-last r [] = inl refl
Listed-last r (q ∷ rs) = inr (Listed-last r rs)

Listed-more : (r q : Request) (rs : List Request) → Listed r rs → Listed r (rs ++ q ∷ [])
Listed-more r q [] h = absurd h
Listed-more r q (x ∷ rs) (inl e) = inl e
Listed-more r q (x ∷ rs) (inr h) = inr (Listed-more r q rs h)

-- The bytes of the run have been written where its first page begins, or uploaded from byte 0.
abbrev pub Sent : ℕ → PageMap → List Request → Type 0
Sent page_size [] rs = Unit
Sent page_size ((i, p) ∷ run) rs =
    Listed (write (i * page_size) (run_bytes page_size ((i, p) ∷ run))) rs
    ⊎ ((i ≡ 0) × Listed (upload (run_bytes page_size ((i, p) ∷ run))) rs)

abbrev pub AllSent : ℕ → List PageMap → List Request → Type 0
AllSent page_size [] rs = Unit
AllSent page_size (run ∷ runs) rs = Sent page_size run rs × AllSent page_size runs rs

Sent-more :
    (s : ℕ) (run : PageMap) (q : Request) (rs : List Request)
    → Sent s run rs
    → Sent s run (rs ++ q ∷ [])
Sent-more s [] q rs h = tt
Sent-more s ((i, p) ∷ run) q rs (inl h) = inl (Listed-more _ q rs h)
Sent-more s ((i, p) ∷ run) q rs (inr (z, h)) = inr (z, Listed-more _ q rs h)

pub AllSent-more :
    (s : ℕ) (runs : List PageMap) (q : Request) (rs : List Request)
    → AllSent s runs rs
    → AllSent s runs (rs ++ q ∷ [])
AllSent-more s [] q rs h = tt
AllSent-more s (run ∷ runs) q rs (h, k) = (Sent-more s run q rs h, AllSent-more s runs q rs k)

-- What a state has sent, of a file with pages of that size.
abbrev pub Log : ℕ → List PageMap → PageManager → Type 0
Log s runs m = (m.page_size ≡ s) × AllSent s runs m.requests

abbrev pub Sends : ℕ → List PageMap → Flushed → Type 0
Sends s runs (flushed m n) = Log s runs m
Sends s runs (refused m) = Unit

-- Where the file still does not exist, the run begins with its first page.
abbrev Created : ℕ → Flushed → Type 0
Created index (flushed d n) = d.backend_exists ≡ false → index ≡ 0
Created index (refused d) = Unit

module _ (refuses : Refuses) (s : ℕ) where
  pub and_then-Sends :
      (done runs : List PageMap) (f : Flushed) (g : PageManager → ℕ → Flushed)
      → Sends s done f
      → ((m : PageManager) (n : ℕ) → Log s done m → Sends s runs (g m n))
      → Sends s runs (and_then f g)
  and_then-Sends done runs (flushed m n) g h k = k m n h
  and_then-Sends done runs (refused m) g h k = tt

  pub if-Sends :
      (runs : List PageMap) (b : Bool) (f g : Flushed)
      → (b ≡ true → Sends s runs f)
      → (b ≡ false → Sends s runs g)
      → Sends s runs (if b then f else g)
  if-Sends runs true f g h k = h refl
  if-Sends runs false f g h k = k refl

  pub request-Sends :
      (runs : List PageMap) (m after : PageManager) (r : Request) (n : ℕ)
      → after.page_size ≡ s
      → AllSent s runs (m.requests ++ r ∷ [])
      → Sends s runs (request refuses m r after n)
  request-Sends runs m after r n e h = if-Sends runs (refuses m r) _ _ (λ _. tt) (λ _. (e, h))

  backend_truncate-Sends :
      (runs : List PageMap) (m : PageManager) (size : ℕ)
      → Log s runs m
      → Sends s runs (backend_truncate refuses m size)
  unfolding backend_truncate
  backend_truncate-Sends runs m size h =
      if-Sends runs (m.backend_exists && not (m.backend_size == size)) _ _
        (λ _.
          request-Sends runs m (record m { backend_size = size }) (cut size) 0 h.0
            (AllSent-more s runs (cut size) m.requests h.1))
        (λ _. h)

  create-Sends :
      (runs : List PageMap) (m : PageManager)
      → Log s runs m
      → Sends s runs (request refuses m create (record m { backend_exists = true }) 0)
  create-Sends runs m h =
      request-Sends runs m (record m { backend_exists = true }) create 0 h.0
        (AllSent-more s runs create m.requests h.1)

  pub flush_create-Sends :
      (runs : List PageMap) (m : PageManager) → Log s runs m → Sends s runs (flush_create refuses m)
  unfolding flush_create
  flush_create-Sends runs m h =
      and_then-Sends runs runs _ _
        (if-Sends runs m.backend_exists _ _ (λ _. h) (λ _. create-Sends runs m h))
        (λ d n k.
          if-Sends runs (ltb (max d.backend_size (max_dirty d.page_size d.pages)) d.file_size) _ _
            (λ _. backend_truncate-Sends runs d d.file_size k) (λ _. k))

  pub create_before-Sends :
      (runs : List PageMap) (m : PageManager) (index : ℕ)
      → Log s runs m
      → Sends s runs (create_before refuses m index)
  unfolding create_before
  create_before-Sends runs m index h =
      if-Sends runs (not m.backend_exists && not (index == 0)) _ _ (λ _. create-Sends runs m h)
        (λ _. h)

  -- Behind create_before, a file that does not exist is sent from its first page.
  created : (m : PageManager) (index : ℕ) → Created index (create_before refuses m index)
  unfolding create_before
  created m index = elim (Bool-cases (not m.backend_exists && not (index == 0))) [
    | inl e ↦
        rw e (elim (Bool-cases (refuses m create)) [
          | inl r ↦ rw r tt
          | inr r ↦ rw r (λ f. absurd (cc))
        ])
    | inr e ↦ rw e (λ f. ground (arith, e, f))
  ]

  send_pages-Sends :
      (runs : List PageMap) (m : PageManager) (run : PageMap)
      → (m.backend_exists ≡ false → run_index run ≡ 0)
      → Log s runs m
      → Sends s (run ∷ runs) (send_pages refuses m (run_index run) run)
  unfolding send_pages
  send_pages-Sends runs m run first h =
      if-Sends (run ∷ runs) m.backend_exists _ _
        (λ _.
          sends (write (run_index run * m.page_size) (run_bytes m.page_size run)) (written run h.0))
        (λ e. sends (upload (run_bytes m.page_size run)) (uploaded run h.0 (first e)))
    where
      after : PageManager
      after = record m {
        backend_exists = true;
        backend_size = max m.backend_size (run_index run * m.page_size + total_bytes run);
      }

      sends :
          (r : Request)
          → Sent s run (m.requests ++ r ∷ [])
          → Sends s (run ∷ runs) (request refuses m r after (total_bytes run))
      sends r k =
          request-Sends (run ∷ runs) m after r (total_bytes run) h.0
            (k, AllSent-more s runs r m.requests h.1)

      written :
          (q : PageMap)
          → m.page_size ≡ s
          → Sent s q
              (m.requests ++ write (run_index q * m.page_size) (run_bytes m.page_size q) ∷ [])
      written [] e = tt
      written ((i, p) ∷ q) e =
          subst
            (λ n.
              Sent n ((i, p) ∷ q)
                (m.requests ++ write (i * m.page_size) (run_bytes m.page_size ((i, p) ∷ q)) ∷ []))
            e (inl (Listed-last _ m.requests))

      uploaded :
          (q : PageMap)
          → m.page_size ≡ s
          → run_index q ≡ 0
          → Sent s q (m.requests ++ upload (run_bytes m.page_size q) ∷ [])
      uploaded [] e z = tt
      uploaded ((i, p) ∷ q) e z =
          subst
            (λ n.
              Sent n ((i, p) ∷ q) (m.requests ++ upload (run_bytes m.page_size ((i, p) ∷ q)) ∷ []))
            e (inr (z, Listed-last _ m.requests))

  backend_flush-Sends :
      (runs : List PageMap) (m : PageManager) (run : PageMap)
      → Log s runs m
      → Sends s (run ∷ runs) (backend_flush refuses m (run_index run) run)
  unfolding backend_flush
  backend_flush-Sends runs m run h =
      go (create_before refuses m (run_index run)) (create_before-Sends runs m (run_index run) h)
        (created m (run_index run))
    where
      go :
          (f : Flushed)
          → Sends s runs f
          → Created (run_index run) f
          → Sends s (run ∷ runs) (and_then f (λ d _. send_pages refuses d (run_index run) run))
      go (flushed d n) k c = send_pages-Sends runs d run c k
      go (refused d) k c = tt

  pub flush_page_list-Sends :
      (runs : List PageMap) (m : PageManager) (run : PageMap)
      → Log s runs m
      → Sends s (run ∷ runs) (flush_page_list refuses m (run_index run) run)
  unfolding flush_page_list
  flush_page_list-Sends runs m run h =
      and_then-Sends (run ∷ runs) (run ∷ runs)
        (if is_empty run then flushed m 0 else backend_flush refuses m (run_index run) run) _
        (sent_run run)
        (λ d total k.
          if-Sends (run ∷ runs) m.backend_exists _ _ (λ _. k)
            (λ _.
              and_then-Sends (run ∷ runs) (run ∷ runs)
                (flush_create refuses (record d { pages = clean_pages run d.pages })) _
                (flush_create-Sends (run ∷ runs) (record d { pages = clean_pages run d.pages }) k)
                (λ e n l. l)))
    where
      sent_run :
          (q : PageMap)
          → Sends s
              (q ∷ runs)
              (if is_empty q then flushed m 0 else backend_flush refuses m (run_index q) q)
      sent_run [] = (h.0, (tt, h.1))
      sent_run ((i, p) ∷ q) = backend_flush-Sends runs m ((i, p) ∷ q) h
