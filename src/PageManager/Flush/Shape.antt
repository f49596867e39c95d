-- ===== src/PageManager/Flush/Shape.antt =====
-- The shape of one run that GetWriteList of PageManager.cpp collects.
use andromeda_desktop_client.Common.{
  ℕ, suc, ◌+◌, ◌≤◌, ◌<◌, ◌≡◌, refl, ◌⊎◌, inl, inr, true, [], ◌∷◌, ◌++◌, arith, length,
  length-append,
}
use andromeda_desktop_client.PageManager.Pages.{Page, PageMap, page_length}
use andromeda_desktop_client.PageManager.Flush.{
  add, skip, stop, choose, write_list, total_bytes, run_index,
}
use andromeda_desktop_client.PageManager.Flush.Runs.{
  Consecutive, write_list-add, write_list-skip, write_list-stop, Choice-cases,
}

abbrev pub AllDirty : PageMap → Type 0
AllDirty [] = Unit {0}
AllDirty ((i, p) ∷ run) = (p.dirty ≡ true) × AllDirty run

-- The run so far, with the loop's own variables.
record Run (max_write last cur_size : ℕ) (run : PageMap) : Type 0 where
  linked : Consecutive (run_index run) run
  dirty : AllDirty run
  ending : (run ≡ []) ⊎ (last + 1 ≡ run_index run + length run)
  counted : cur_size ≡ total_bytes run
  small : 0 < max_write → (total_bytes run ≤ max_write) ⊎ (length run ≤ 1)

Consecutive-append :
    (s i : ℕ) (p : Page) (run : PageMap)
    → Consecutive s run
    → i ≡ s + length run
    → Consecutive s (run ++ (i, p) ∷ [])
Consecutive-append s i p [] c e = (omega (arith, e), tt)
Consecutive-append s i p ((j, q) ∷ run) c e =
    (c.0, Consecutive-append (suc s) i p run c.1 (omega (arith, e)))

AllDirty-append :
    (i : ℕ) (p : Page) (run : PageMap)
    → AllDirty run
    → p.dirty ≡ true
    → AllDirty (run ++ (i, p) ∷ [])
AllDirty-append i p [] d e = (e, tt)
AllDirty-append i p ((j, q) ∷ run) d e = (d.0, AllDirty-append i p run d.1 e)

total_bytes-append :
    (i : ℕ) (p : Page) (run : PageMap)
    → total_bytes (run ++ (i, p) ∷ []) ≡ total_bytes run + page_length p
unfolding total_bytes
total_bytes-append i p [] = omega arith
total_bytes-append i p ((j, q) ∷ run) = omega (arith, total_bytes-append i p run)

choose-first :
    (max_write last cur_size i : ℕ) (p : Page)
    → choose max_write last cur_size [] i p ≡ add
    → p.dirty ≡ true
unfolding choose
choose-first max_write last cur_size i p h = ground arith

choose-next :
    (max_write last cur_size i j : ℕ) (p q : Page) (run : PageMap)
    → choose max_write last cur_size ((j, q) ∷ run) i p ≡ add
    → (p.dirty ≡ true) × (i ≡ last + 1) × (0 < max_write → cur_size + page_length p ≤ max_write)
unfolding choose
choose-next max_write last cur_size i j p q run h = (ground arith, ground arith, λ w. ground arith)

add-Run :
    (max_write last cur_size i : ℕ) (p : Page) (run : PageMap)
    → Run max_write last cur_size run
    → choose max_write last cur_size run i p ≡ add
    → Run max_write i (cur_size + page_length p) (run ++ (i, p) ∷ [])
add-Run max_write last cur_size i p [] r h =
    unfold total_bytes in
    record {
      linked = (refl, tt);
      dirty = (choose-first max_write last cur_size i p h, tt);
      ending = inr refl;
      counted = omega (arith, r.counted);
      small = λ w. inr (omega arith);
    }
add-Run max_write last cur_size i p ((j, q) ∷ run) r h =
    let c = choose-next max_write last cur_size i j p q run h in
    let at : i ≡ j + suc (length run) = last-index r.ending c.1 in
    record {
      linked = Consecutive-append j i p ((j, q) ∷ run) r.linked at;
      dirty = AllDirty-append i p ((j, q) ∷ run) r.dirty c.0;
      ending = inr (omega (arith, at, length-append run ((i, p) ∷ [])));
      counted = omega (arith, r.counted, total_bytes-append i p ((j, q) ∷ run));
      small = λ w. inl (omega (arith, c.2 w, r.counted, total_bytes-append i p ((j, q) ∷ run)));
    }
  where
    last-index :
        ((j, q) ∷ run ≡ []) ⊎ (last + 1 ≡ j + suc (length run))
        → i ≡ last + 1
        → i ≡ j + suc (length run)
    last-index (inl e) k = absurd (cc)
    last-index (inr e) k = omega (arith, e, k)

write_list-Run :
    (max_write last cur_size : ℕ) (run ps : PageMap)
    → Run max_write last cur_size run
    → (last_end : ℕ) × (size_end : ℕ) × Run max_write last_end size_end
        (write_list max_write last cur_size run ps).0
write_list-Run max_write last cur_size run [] r = unfold write_list in (last, cur_size, r)
write_list-Run max_write last cur_size run ((i, p) ∷ ps) r =
    go (Choice-cases (choose max_write last cur_size run i p))
      (write_list-Run max_write i (cur_size + page_length p) (run ++ (i, p) ∷ []) ps)
      (write_list-Run max_write last cur_size run ps)
  where
    go :
        (choose max_write last cur_size run i p ≡ add)
          ⊎ (choose max_write last cur_size run i p ≡ skip)
          ⊎ (choose max_write last cur_size run i p ≡ stop)
        → (Run max_write i (cur_size + page_length p) (run ++ (i, p) ∷ [])
            → (last_end : ℕ) × (size_end : ℕ) × Run max_write last_end size_end
                (write_list max_write i (cur_size + page_length p) (run ++ (i, p) ∷ []) ps).0)
        → (Run max_write last cur_size run
            → (last_end : ℕ) × (size_end : ℕ) × Run max_write last_end size_end
                (write_list max_write last cur_size run ps).0)
        → (last_end : ℕ) × (size_end : ℕ) × Run max_write last_end size_end
            (write_list max_write last cur_size run ((i, p) ∷ ps)).0
    go (inl e) h k =
        rw (write_list-add max_write last cur_size run i p ps e)
          (h (add-Run max_write last cur_size i p run r e))
    go (inr (inl e)) h k = rw (write_list-skip max_write last cur_size run i p ps e) (k r)
    go (inr (inr e)) h k =
        rw (write_list-stop max_write last cur_size run i p ps e) (last, cur_size, r)

empty-Run : (max_write : ℕ) → Run max_write 0 0 []
unfolding total_bytes
empty-Run max_write = record {
  linked = tt;
  dirty = tt;
  ending = inl refl;
  counted = refl;
  small = λ w. inr (omega arith);
}

-- What GetWriteList collects from any pages is a run that one request can carry: dirty pages at
-- consecutive indices, and where the server has a maximum, either one page or no more bytes than
-- the maximum.
pub write_list_shape :
    (max_write : ℕ) (ps : PageMap)
    → let run = (write_list max_write 0 0 [] ps).0 in
      Consecutive (run_index run) run
      × AllDirty run
      × (0 < max_write → (total_bytes run ≤ max_write) ⊎ (length run ≤ 1))
write_list_shape max_write ps =
    let (last, size, r) = write_list-Run max_write 0 0 [] ps (empty-Run max_write) in
    (r.linked, r.dirty, r.small)
