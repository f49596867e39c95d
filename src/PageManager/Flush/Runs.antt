-- ===== src/PageManager/Flush/Runs.antt =====
-- The runs of dirty pages that GetWriteList of PageManager.cpp collects.
use mathlib.Core.List.{append_assoc, flatten}
use andromeda_desktop_client.Common.{
  ℕ, zero, suc, ◌+◌, ◌≤◌, ◌≡◌, refl, ◌∙◌, ap, ◌⊎◌, inl, inr, true, false, if◌then◌else◌, List, [],
  ◌∷◌, ◌++◌, arith, length, ◌≢◌,
}
use andromeda_desktop_client.PageManager.Pages.{Page, PageMap, page_length}
use andromeda_desktop_client.PageManager.Flush.{
  Choice, add, skip, stop, choose, write_list, write_lists, is_empty,
}

unfoldable pub dirty_pages : PageMap → PageMap
dirty_pages [] = []
dirty_pages ((i, p) ∷ ps) = if p.dirty then (i, p) ∷ dirty_pages ps else dirty_pages ps

-- Pages at consecutive indices.
abbrev pub Consecutive : ℕ → PageMap → Type 0
Consecutive start [] = Unit {0}
Consecutive start ((i, p) ∷ run) = (i ≡ start) × Consecutive (suc start) run

-- What a choice needs to be true.
abbrev Fits : ℕ → PageMap → ℕ → Page → Choice → Type 0
Fits last run i p add = (p.dirty ≡ true) × ((run ≡ []) ⊎ (i ≡ last + 1))
Fits last run i p skip = (p.dirty ≡ false) × (run ≡ [])
Fits last run i p stop = run ≢ []

choose-Fits :
    (max_write last cur_size : ℕ) (run : PageMap) (i : ℕ) (p : Page)
    → Fits last run i p (choose max_write last cur_size run i p)
unfolding choose
choose-Fits max_write last cur_size [] i p = ground arith
choose-Fits max_write last cur_size (q ∷ run) i p = ground arith

pub write_list-add :
    (max_write last cur_size : ℕ) (run : PageMap) (i : ℕ) (p : Page) (ps : PageMap)
    → choose max_write last cur_size run i p ≡ add
    → write_list max_write last cur_size run ((i, p) ∷ ps)
      ≡ write_list max_write i (cur_size + page_length p) (run ++ (i, p) ∷ []) ps
unfolding write_list
write_list-add max_write last cur_size run i p ps e = rw (e, write_list) refl

pub write_list-skip :
    (max_write last cur_size : ℕ) (run : PageMap) (i : ℕ) (p : Page) (ps : PageMap)
    → choose max_write last cur_size run i p ≡ skip
    → write_list max_write last cur_size run ((i, p) ∷ ps)
      ≡ write_list max_write last cur_size run ps
unfolding write_list
write_list-skip max_write last cur_size run i p ps e = rw (e, write_list) refl

pub write_list-stop :
    (max_write last cur_size : ℕ) (run : PageMap) (i : ℕ) (p : Page) (ps : PageMap)
    → choose max_write last cur_size run i p ≡ stop
    → write_list max_write last cur_size run ((i, p) ∷ ps) ≡ (run, (i, p) ∷ ps)
unfolding write_list
write_list-stop max_write last cur_size run i p ps e = rw (e, write_list) refl

pub Choice-cases : (c : Choice) → (c ≡ add) ⊎ (c ≡ skip) ⊎ (c ≡ stop)
Choice-cases add = inl refl
Choice-cases skip = inr (inl refl)
Choice-cases stop = inr (inr refl)

abbrev Collects : PageMap → PageMap × PageMap → PageMap → Type 0
Collects run wl ps = wl.0 ++ dirty_pages wl.1 ≡ run ++ dirty_pages ps

dirty_pages-dirty :
    (i : ℕ) (p : Page) (ps : PageMap)
    → p.dirty ≡ true
    → dirty_pages ((i, p) ∷ ps) ≡ (i, p) ∷ dirty_pages ps
unfolding dirty_pages
dirty_pages-dirty i p ps e = rw e refl

dirty_pages-clean :
    (i : ℕ) (p : Page) (ps : PageMap) → p.dirty ≡ false → dirty_pages ((i, p) ∷ ps) ≡ dirty_pages ps
unfolding dirty_pages
dirty_pages-clean i p ps e = rw e refl

-- The run and the dirty pages behind it are all dirty pages, in their order.
write_list-dirty :
    (max_write last cur_size : ℕ) (run ps : PageMap)
    → Collects run (write_list max_write last cur_size run ps) ps
unfolding write_list dirty_pages
write_list-dirty max_write last cur_size run [] = refl
write_list-dirty max_write last cur_size run ((i, p) ∷ ps) =
    go (Choice-cases (choose max_write last cur_size run i p))
      (choose-Fits max_write last cur_size run i p)
      (write_list-dirty max_write i (cur_size + page_length p) (run ++ (i, p) ∷ []) ps)
      (write_list-dirty max_write last cur_size run ps)
  where
    go :
        (choose max_write last cur_size run i p ≡ add)
          ⊎ (choose max_write last cur_size run i p ≡ skip)
          ⊎ (choose max_write last cur_size run i p ≡ stop)
        → Fits last run i p (choose max_write last cur_size run i p)
        → Collects
            (run ++ (i, p) ∷ [])
            (write_list max_write i (cur_size + page_length p) (run ++ (i, p) ∷ []) ps)
            ps
        → Collects run (write_list max_write last cur_size run ps) ps
        → Collects run (write_list max_write last cur_size run ((i, p) ∷ ps)) ((i, p) ∷ ps)
    go (inl e) f h k =
        let d : p.dirty ≡ true = (rw e at f).0 in
        rw (write_list-add max_write last cur_size run i p ps e, dirty_pages-dirty i p ps d)
          (h ∙ append_assoc run ((i, p) ∷ []) (dirty_pages ps))
    go (inr (inl e)) f h k =
        let d : p.dirty ≡ false = (rw e at f).0 in
        rw (write_list-skip max_write last cur_size run i p ps e, dirty_pages-clean i p ps d) k
    go (inr (inr e)) f h k = rw (write_list-stop max_write last cur_size run i p ps e) refl

write_list_shorter :
    (max_write last cur_size : ℕ) (run ps : PageMap)
    → length (write_list max_write last cur_size run ps).1 ≤ length ps
unfolding write_list
write_list_shorter max_write last cur_size run [] = omega arith
write_list_shorter max_write last cur_size run ((i, p) ∷ ps) =
    go (Choice-cases (choose max_write last cur_size run i p))
      (write_list_shorter max_write i (cur_size + page_length p) (run ++ (i, p) ∷ []) ps)
      (write_list_shorter max_write last cur_size run ps)
  where
    go :
        (choose max_write last cur_size run i p ≡ add)
          ⊎ (choose max_write last cur_size run i p ≡ skip)
          ⊎ (choose max_write last cur_size run i p ≡ stop)
        → length (write_list max_write i (cur_size + page_length p) (run ++ (i, p) ∷ []) ps).1
          ≤ length ps
        → length (write_list max_write last cur_size run ps).1 ≤ length ps
        → length (write_list max_write last cur_size run ((i, p) ∷ ps)).1 ≤ suc (length ps)
    go (inl e) h k = rw (write_list-add max_write last cur_size run i p ps e) (omega (arith, h))
    go (inr (inl e)) h k =
        rw (write_list-skip max_write last cur_size run i p ps e) (omega (arith, k))
    go (inr (inr e)) h k = rw (write_list-stop max_write last cur_size run i p ps e) (omega arith)

-- A round from an empty run takes at least one page off the map.
write_list-lt :
    (max_write last cur_size : ℕ) (i : ℕ) (p : Page) (ps : PageMap)
    → length (write_list max_write last cur_size [] ((i, p) ∷ ps)).1 ≤ length ps
write_list-lt max_write last cur_size i p ps =
    go (Choice-cases (choose max_write last cur_size [] i p))
      (choose-Fits max_write last cur_size [] i p)
  where
    go :
        (choose max_write last cur_size [] i p ≡ add)
          ⊎ (choose max_write last cur_size [] i p ≡ skip)
          ⊎ (choose max_write last cur_size [] i p ≡ stop)
        → Fits last [] i p (choose max_write last cur_size [] i p)
        → length (write_list max_write last cur_size [] ((i, p) ∷ ps)).1 ≤ length ps
    go (inl e) f =
        rw (write_list-add max_write last cur_size [] i p ps e)
          (write_list_shorter max_write i (cur_size + page_length p) ((i, p) ∷ []) ps)
    go (inr (inl e)) f =
        rw (write_list-skip max_write last cur_size [] i p ps e)
          (write_list_shorter max_write last cur_size [] ps)
    go (inr (inr e)) f = absurd ((rw e at f) refl)

flatten-cons-run :
    (run : PageMap) (runs : List PageMap)
    → flatten (if is_empty run then runs else run ∷ runs) ≡ run ++ flatten runs
unfolding flatten
flatten-cons-run [] runs = refl
flatten-cons-run (q ∷ run) runs = refl

-- With as many rounds as the map has pages, the runs that FlushPages collects hold every dirty page
-- exactly once, in the order of the map, and no clean page.
pub flatten-write_lists :
    (max_write fuel : ℕ) (ps : PageMap)
    → length ps ≤ fuel
    → flatten (write_lists max_write fuel ps) ≡ dirty_pages ps
unfolding write_lists flatten
flatten-write_lists max_write zero [] h = unfold dirty_pages in refl
flatten-write_lists max_write zero (q ∷ ps) h = absurd (omega arith)
flatten-write_lists max_write (suc fuel) [] h = unfold dirty_pages in refl
flatten-write_lists max_write (suc fuel) ((i, p) ∷ ps) h =
    let rest = (write_list max_write 0 0 [] ((i, p) ∷ ps)).1 in
    let ih =
      flatten-write_lists max_write fuel rest
        (omega (arith, h, write_list-lt max_write 0 0 i p ps)) in
    flatten-cons-run (write_list max_write 0 0 [] ((i, p) ∷ ps)).0 (write_lists max_write fuel rest)
    ∙ ap (λ (t : PageMap). (write_list max_write 0 0 [] ((i, p) ∷ ps)).0 ++ t) ih
    ∙ write_list-dirty max_write 0 0 [] ((i, p) ∷ ps)
