-- ===== src/PageManager/Tests.antt =====
-- Tests of the model of PageManager.cpp, and its theorems at concrete states.
use mathlib.Core.List.{flatten}
use mathlib.Core.Option
use andromeda_desktop_client.Common.{
  ◌⊎◌, some, length, zero, suc, ◌+◌, ◌-◌, ◌*◌, ◌≤◌, ◌<◌, ◌≡◌, refl, true, false, [], ◌∷◌, none,
  arith, add64,
}
use andromeda_desktop_client.PageManager.{
  PageManager, create, upload, write, cut, get_fetch_size, is_fetch_pending, fetched_page,
  last_page, read_count, stop_pending, in_range,
}
use andromeda_desktop_client.PageManager.Pages.{
  Page, page_length, find_page, upper_bound, emplace_page, resize,
}
use andromeda_desktop_client.PageManager.Fetch.{Ascending, get_fetch_size-valid}
use andromeda_desktop_client.PageManager.Flush.{
  Refuses, write_lists, write_list, choose, flush_pages, run_index, total_bytes,
}
use andromeda_desktop_client.PageManager.Received.{fetched_page-oversized}
use andromeda_desktop_client.PageManager.Flush.Runs.{dirty_pages, flatten-write_lists, Consecutive}
use andromeda_desktop_client.PageManager.Flush.Shape.{AllDirty, write_list_shape}
use andromeda_desktop_client.PageManager.Flush.Clean.{Ends}
use andromeda_desktop_client.PageManager.Flush.Sends.{Sends}
use andromeda_desktop_client.PageManager.Flush.All.{all_clean, erase_pages, flush_pages-Ends}
use andromeda_desktop_client.PageManager.Write.{
  Fetch, write_page, get_page_write, copy_in, set_page,
}
use andromeda_desktop_client.PageManager.Written.{Writes, write_page-Writes}
use andromeda_desktop_client.PageManager.Truncate.{Truncates, truncate, truncate-Truncates}
use andromeda_desktop_client.PageManager.Remote.{
  remote_changed, Covered, dirty_found, remote_changed-Covered,
}

abbrev clean_two : Page
clean_two = record { bytes = 1 ∷ 2 ∷ []; dirty = false }

abbrev dirty_two : Page
dirty_two = record { bytes = 3 ∷ 4 ∷ []; dirty = true }

abbrev dirty_one : Page
dirty_one = record { bytes = 5 ∷ []; dirty = true }

-- Pages of two bytes: page 0 clean, 1 and 2 missing, 3 and 4 dirty, in a file of nine bytes.
abbrev five_pages : PageManager
five_pages = record {
  page_size = 2;
  file_size = 9;
  backend_size = 8;
  backend_exists = true;
  fetch_size = 4;
  pages = (0, clean_two) ∷ (3, dirty_two) ∷ (4, dirty_one) ∷ [];
  pending = (2, 1) ∷ [];
  failed = [];
  deferred_evicts = 3 ∷ [];
  requests = [];
}

five_pages-Ascending : Ascending 0 five_pages.pages
five_pages-Ascending = (omega arith, (omega arith, (omega arith, tt)))

-- The server refuses to cut files.
abbrev refuses_cut : Refuses
refuses_cut m (cut n) = true
refuses_cut m create = false
refuses_cut m (upload n) = false
refuses_cut m (write a n) = false

five_pages_runs : write_lists 0 4 five_pages.pages ≡ ((3, dirty_two) ∷ (4, dirty_one) ∷ []) ∷ []
unfolding write_lists write_list choose add64
five_pages_runs = refl

fetch_of_one : get_fetch_size five_pages 1 ≡ 1
unfolding get_fetch_size read_count last_page stop_pending is_fetch_pending in_range find_page
    upper_bound
fetch_of_one = refl

get_fetch_size-valid_example :
    ((0 + 1) * 2 < 8)
    × (find_page (0 + 1) five_pages.pages ≡ none)
    × (is_fetch_pending five_pages.pending (0 + 1) ≡ false)
get_fetch_size-valid_example =
    get_fetch_size-valid five_pages 1 0 (omega arith) five_pages-Ascending
      (omega (arith, fetch_of_one))

fetched_page-oversized_example :
    (page_length (fetched_page five_pages 1 dirty_one) ≡ 2) × (9 - 4 * 2 < 2)
fetched_page-oversized_example =
    fetched_page-oversized five_pages 1 4 dirty_one (omega arith) (omega arith) (omega arith)
      (omega arith) (omega arith)

flatten-write_lists_example :
    flatten (write_lists 3 4 five_pages.pages) ≡ dirty_pages five_pages.pages
flatten-write_lists_example = flatten-write_lists 3 4 five_pages.pages (omega arith)

flush_pages-Ends_example :
    Ends refuses_cut
      (all_clean (erase_pages (3 ∷ []) five_pages.pages), [])
      (flush_pages refuses_cut 3 true five_pages)
    × Sends 2 (write_lists 3 4 five_pages.pages) (flush_pages refuses_cut 3 true five_pages)
flush_pages-Ends_example = flush_pages-Ends refuses_cut 3 true five_pages five_pages-Ascending

truncate-Truncates_example : Truncates refuses_cut five_pages 7 (truncate refuses_cut five_pages 7)
truncate-Truncates_example = truncate-Truncates refuses_cut five_pages 7 (omega arith)

remote_changed-Covered_example :
    (find_page 3 (remote_changed five_pages 4).pages ≡ dirty_found (find_page 3 five_pages.pages))
    × ((remote_changed five_pages 4).backend_size ≡ 4)
    × (4 ≤ (remote_changed five_pages 4).file_size)
    × Covered 2 (remote_changed five_pages 4).file_size (remote_changed five_pages 4).pages
remote_changed-Covered_example = remote_changed-Covered five_pages 4 3 refl five_pages-Ascending

write_list_shape_example :
    Consecutive
      (run_index (write_list 3 0 0 [] five_pages.pages).0)
      (write_list 3 0 0 [] five_pages.pages).0
    × AllDirty (write_list 3 0 0 [] five_pages.pages).0
    × (0 < 3
        → (total_bytes (write_list 3 0 0 [] five_pages.pages).0 ≤ 3)
          ⊎ (length (write_list 3 0 0 [] five_pages.pages).0 ≤ 1))
write_list_shape_example = write_list_shape 3 five_pages.pages

-- The server gives page 1 and no other.
abbrev gives_one : Fetch
gives_one zero = none
gives_one (suc zero) = some (7 ∷ 8 ∷ [])
gives_one (suc (suc i)) = none

-- A partial write of a page that is read first, one of a page that the server does not give, and
-- one past the end of the file.
write_fetched :
    Option.map PageManager.pages (write_page gives_one five_pages 1 1 (9 ∷ []))
    ≡ some (
        (0, clean_two)
        ∷ (1, record { bytes = 7 ∷ 9 ∷ []; dirty = true })
        ∷ (3, dirty_two)
        ∷ (4, dirty_one)
        ∷ [])
unfolding write_page get_page_write find_page emplace_page resize copy_in set_page
write_fetched = refl

write_page-Writes_example :
    Writes gives_one five_pages 1 1 (9 ∷ []) (write_page gives_one five_pages 1 1 (9 ∷ []))
write_page-Writes_example = write_page-Writes gives_one five_pages 1 1 (9 ∷ []) (omega arith)
