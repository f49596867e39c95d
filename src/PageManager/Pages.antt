-- ===== src/PageManager/Pages.antt =====
-- The pages of a file and the map that holds them: Page.cpp, and PageMap of
-- src/lib/andromeda/filesystem/filedata/PageManager.hpp, a std::map in the order of the indices.
use andromeda_desktop_client.Common.{
  ℕ, ◌-◌, Bool, if◌then◌else◌, ltb, ◌==◌, List, [], ◌∷◌, ◌++◌, Option, none, some, length, take,
  replicate,
}

pub record Page : Type 0 where
  pub bytes : List ℕ
  pub dirty : Bool

abbrev pub page_length : Page → ℕ
page_length p = length p.bytes

-- Page::resize keeps the bytes that fit, and PageManager::ResizePage zeroes what is new.
unfoldable pub resize : Page → ℕ → Page
resize p n = record p { bytes = take n p.bytes ++ replicate (n - length p.bytes) 0 }

abbrev pub PageMap : Type 0
PageMap = List (ℕ × Page)

unfoldable pub find_page : ℕ → PageMap → Option Page
find_page i [] = none
find_page i ((j, p) ∷ ps) = if j == i then some p else find_page i ps

unfoldable pub erase_page : ℕ → PageMap → PageMap
erase_page i [] = []
erase_page i ((j, p) ∷ ps) = if j == i then ps else (j, p) ∷ erase_page i ps

-- std::map::emplace: an index that is there keeps its page.
unfoldable pub emplace_page : ℕ → Page → PageMap → PageMap
emplace_page i p [] = (i, p) ∷ []
emplace_page i p ((j, q) ∷ ps) =
    if j == i
    then (j, q) ∷ ps
    else if ltb i j
    then (i, p) ∷ (j, q) ∷ ps
    else (j, q) ∷ emplace_page i p ps

-- std::map::upper_bound: the first index above the given one.
unfoldable pub upper_bound : ℕ → PageMap → Option ℕ
upper_bound i [] = none
upper_bound i ((j, p) ∷ ps) = if ltb i j then some j else upper_bound i ps
