-- ===== src/PageManager/Write.antt =====
-- WritePage, GetPageWrite and the copy of ReadPage of PageManager.cpp, of a file whose cache manager
-- is disabled. What PageBackend::FetchPages gives for the one page that a partial write needs is a
-- parameter: its bytes, or nothing where it throws.
use andromeda_desktop_client.Common.{
  ℕ, ◌+◌, ◌-◌, ◌*◌, ◌/◌, Bool, true, false, not, ◌&&◌, ◌||◌, if◌then◌else◌, ltb, leb, ◌==◌, List,
  [], ◌∷◌, ◌++◌, Option, none, some, length, min, max, take, drop,
}
use andromeda_desktop_client.PageManager.{PageManager}
use andromeda_desktop_client.PageManager.Pages.{Page, PageMap, resize, find_page, emplace_page}

-- Changing a page in place.
unfoldable pub set_page : ℕ → Page → PageMap → PageMap
set_page i p [] = []
set_page i p ((j, q) ∷ ps) = if j == i then (j, p) ∷ ps else (j, q) ∷ set_page i p ps

abbrev pub Fetch : Type 0
Fetch = ℕ → Option (List ℕ)

unfoldable pub set_found : ℕ → ℕ → Option Page → PageMap → PageMap
set_found i size none ps = ps
set_found i size (some p) ps = set_page i (resize p size) ps

-- The old last page becomes a whole page when the file grows past it.
unfoldable pub extend_last : PageManager → ℕ → PageMap
unfolding set_found
extend_last m start =
    let last = (m.file_size - 1) / m.page_size in
    if ltb m.file_size start && ltb 0 m.file_size
    then set_found last m.page_size (find_page last m.pages) m.pages
    else m.pages

abbrev pub fetched : ℕ → ℕ → PageMap → Option (List ℕ) → Option PageMap
fetched i size ps none = none
fetched i size ps (some bytes) =
    some (emplace_page i (resize (record { bytes = bytes; dirty = false }) size) ps)

unfoldable pub get_page_write : Fetch → PageManager → ℕ → ℕ → Bool → Option PageMap
unfolding extend_last
get_page_write fetch m index size partial = elim (find_page index m.pages) [
  | some p ↦ some (set_page index (resize p size) m.pages)
  | none ↦
      if leb m.backend_size (index * m.page_size) || not partial
      then some (
          emplace_page index (resize (record { bytes = []; dirty = false }) size)
            (extend_last m (index * m.page_size)))
      else fetched index size m.pages (fetch index)
]

-- memcpy into the page.
unfoldable pub copy_in : ℕ → List ℕ → Page → Page
copy_in offset buffer p = record {
  bytes = take offset p.bytes ++ (buffer ++ drop (offset + length buffer) p.bytes);
  dirty = true;
}

abbrev pub copied : PageManager → ℕ → ℕ → ℕ → List ℕ → Option PageMap → Option PageManager
copied m size index offset buffer none = none
copied m size index offset buffer (some ps) = some (record m {
  file_size = size;
  pages = elim (find_page index ps) [
    | none ↦ ps
    | some p ↦ set_page index (copy_in offset buffer p) ps
  ];
})

unfoldable pub write_page : Fetch → PageManager → ℕ → ℕ → List ℕ → Option PageManager
unfolding get_page_write copy_in
write_page fetch m index offset buffer =
    let new_size = max m.file_size (index * m.page_size + offset + length buffer) in
    let size = min (new_size - index * m.page_size) m.page_size in
    copied m new_size index offset buffer
      (get_page_write fetch m index size (ltb 0 offset || ltb (length buffer) size))

-- memcpy out of the page, in ReadPage.
unfoldable pub copy_out : ℕ → ℕ → Page → List ℕ
copy_out offset n p = take n (drop offset p.bytes)
