-- ===== src/PageManager/Remote.antt =====
-- RemoteChanged of PageManager.cpp: the file has changed on the server.
use andromeda_desktop_client.Common.{
  ℕ, suc, ◌+◌, ◌*◌, ◌≤◌, ◌<◌, ◌≡◌, refl, inl, inr, true, not, if◌then◌else◌, [], ◌∷◌, Option, none,
  some, arith, max, Bool-cases,
}
use andromeda_desktop_client.PageManager.{PageManager}
use andromeda_desktop_client.PageManager.Pages.{Page, PageMap, page_length, find_page}
use andromeda_desktop_client.PageManager.Flush.{max_dirty}
use andromeda_desktop_client.PageManager.Fetch.{Ascending}

-- RemoteChanged evicts all pages that are not dirty.
unfoldable pub remove_clean : PageMap → PageMap
remove_clean [] = []
remove_clean ((i, p) ∷ ps) = if not p.dirty then remove_clean ps else (i, p) ∷ remove_clean ps

unfoldable pub remote_changed : PageManager → ℕ → PageManager
unfolding remove_clean max_dirty
remote_changed m new_size = if not m.backend_exists then m else record m {
  pages = remove_clean m.pages;
  file_size = max new_size (max_dirty m.page_size m.pages);
  backend_size = new_size;
}

-- The last byte of every page is inside the file.
abbrev pub Covered : ℕ → ℕ → PageMap → Type 0
Covered page_size file_size [] = Unit {0}
Covered page_size file_size ((i, p) ∷ ps) =
    (i * page_size + page_length p ≤ file_size) × Covered page_size file_size ps

Covered-mono : (s n k : ℕ) (ps : PageMap) → n ≤ k → Covered s n ps → Covered s k ps
Covered-mono s n k [] h c = c
Covered-mono s n k ((i, p) ∷ ps) h c = (omega (arith, h, c.0), Covered-mono s n k ps h c.1)

remove_clean-Covered : (s : ℕ) (ps : PageMap) → Covered s (max_dirty s ps) (remove_clean ps)
unfolding max_dirty remove_clean
remove_clean-Covered s [] = tt
remove_clean-Covered s ((i, p) ∷ ps) =
    let ih = remove_clean-Covered s ps in
    elim (Bool-cases p.dirty) [
      | inr e ↦ rw e ih
      | inl e ↦ rw e (
        omega arith,
        Covered-mono s (max_dirty s ps) (max (i * s + page_length p) (max_dirty s ps))
            (remove_clean ps) (omega arith) ih,
      )
    ]

abbrev pub dirty_found : Option Page → Option Page
dirty_found none = none
dirty_found (some p) = if p.dirty then some p else none

remove_clean-before :
    (i b : ℕ) (ps : PageMap) → Ascending b ps → i < b → find_page i (remove_clean ps) ≡ none
unfolding remove_clean find_page
remove_clean-before i b [] a h = refl
remove_clean-before i b ((j, p) ∷ ps) a h = ground (arith, remove_clean-before i (suc j) ps a.1)

find_page-remove_clean :
    (i b : ℕ) (ps : PageMap)
    → Ascending b ps
    → find_page i (remove_clean ps) ≡ dirty_found (find_page i ps)
unfolding remove_clean find_page
find_page-remove_clean i b [] a = refl
find_page-remove_clean i b ((j, p) ∷ ps) a =
    ground (arith, find_page-remove_clean i (suc j) ps a.1, remove_clean-before i (suc j) ps a.1)

-- When a file that exists on the server has changed there, the map keeps exactly its dirty pages,
-- the backend size is the new one, and the file size is no smaller than that and reaches to the end
-- of each page that is kept; given that the map is in the order of its indices.
pub remote_changed-Covered :
    (m : PageManager) (n i : ℕ)
    → m.backend_exists ≡ true
    → Ascending 0 m.pages
    → let after = remote_changed m n in
      (find_page i after.pages ≡ dirty_found (find_page i m.pages))
      × (after.backend_size ≡ n)
      × (n ≤ after.file_size)
      × Covered m.page_size after.file_size after.pages
unfolding remote_changed
remote_changed-Covered m n i e a = rw e (
  find_page-remove_clean i 0 m.pages a,
  refl,
  omega arith,
  Covered-mono m.page_size (max_dirty m.page_size m.pages) (max n (max_dirty m.page_size m.pages))
      (remove_clean m.pages) (omega arith) (remove_clean-Covered m.page_size m.pages),
)
