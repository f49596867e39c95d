-- ===== src/PageManager/Received.antt =====
-- The callback of FetchPages in PageManager.cpp: the size of a page that has been read.
use andromeda_desktop_client.Common.{
  ℕ, ◌+◌, word, sub64, sub64_small, ◌-◌, ◌*◌, ◌≤◌, ◌<◌, ◌≡◌, min, arith, length, take, replicate,
  length-append, length-take, length-replicate,
}
use andromeda_desktop_client.PageManager.Pages.{Page, page_length, resize}
use andromeda_desktop_client.PageManager.{PageManager, fetched_page}

pub length-resize : (p : Page) (n : ℕ) → page_length (resize p n) ≡ n
unfolding resize
length-resize p n = omega (
  arith,
  length-append (take n p.bytes) (replicate (n - length p.bytes) 0),
  length-take n p.bytes,
  length-replicate {A = ℕ} (n - length p.bytes) 0,
)

-- The last page of the file, when it is fetched behind other pages of one read and comes shorter
-- than a page, is extended to a whole page, past the end of the file: the callback of FetchPages
-- measures from the first page of the read. The file is below 2^64 bytes.
pub fetched_page-oversized :
    (m : PageManager) (start index : ℕ) (p : Page)
    → m.file_size < word
    → start < index
    → index * m.page_size < m.file_size
    → m.file_size < (index + 1) * m.page_size
    → page_length p < m.page_size
    → (page_length (fetched_page m start p) ≡ m.page_size)
      × (m.file_size - index * m.page_size < m.page_size)
unfolding fetched_page
fetched_page-oversized m start index p w lt inside short small =
    let room : m.page_size ≤ m.file_size - start * m.page_size = grind arith in
    let from : start * m.page_size ≤ m.file_size = grind arith in
    let size = sub64_small m.file_size (start * m.page_size) from w in
    let whole : min (sub64 m.file_size (start * m.page_size)) m.page_size ≡ m.page_size =
      omega (arith, size, room) in
    (
      ground (
        arith,
        whole,
        length-resize p (min (sub64 m.file_size (start * m.page_size)) m.page_size),
      ),
      grind arith,
    )
