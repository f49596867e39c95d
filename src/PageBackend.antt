-- ===== src/PageBackend.antt =====
-- src/lib/andromeda/filesystem/filedata/PageBackend.cpp: FetchPages, which cuts the bytes of a read
-- into pages as they arrive, in pieces of any length and with repeated parts after a retry.
pub mod Pieces
pub mod Cutting
pub mod Fetching
mod Tests
use andromeda_desktop_client.Common.{
  ℕ, zero, suc, ◌+◌, ◌-◌, ◌*◌, ◌/◌, Bool, true, false, ◌||◌, if◌then◌else◌, ltb, ◌==◌, List, [],
  ◌∷◌, ◌++◌, Option, none, some, length, take, drop, replicate, min, sub64,
}

-- The variables of FetchPages: curIndex, curPage, and the pages that the handler has been given.
-- `overrun` tells of a copy past the end of a page.
pub record Cut : Type 0 where
  pub index : ℕ
  pub page : Option (List ℕ)
  pub pages : List (ℕ × List ℕ)
  pub overrun : Bool

-- memcpy into a page.
unfoldable pub copy_in : ℕ → List ℕ → List ℕ → List ℕ
copy_in offset bytes p = take offset p ++ (bytes ++ drop (offset + length bytes) p)

-- FetchPages of a file with pages of `page_size`, from the page `start` on.
module _ (page_size backend_size start : ℕ) where
  -- The size of a page: the last one of the file may be short.
  unfoldable pub room : ℕ → ℕ
  room i = min (sub64 backend_size (i * page_size)) page_size

  unfoldable pub read_size : ℕ → ℕ
  read_size count = min (backend_size - start * page_size) (page_size * count)

  -- A new page; its bytes are what the allocator gives.
  abbrev pub open_page : ℕ → Option (List ℕ) → List ℕ
  open_page i none = replicate (room i) 0
  open_page i (some p) = p

  -- One round of the callback at `byte` of the read, with the bytes that are for its page.
  unfoldable pub cut_part : ℕ → List ℕ → Cut → Cut
  unfolding room copy_in
  cut_part byte bytes c =
      let offset = byte - byte / page_size * page_size in
      let p = open_page c.index c.page in
      let past = c.overrun || ltb (length p) (offset + length bytes) in
      let filled = copy_in offset bytes p in
      if byte / page_size == c.index - start
      then (if offset + length bytes == length p
          then record {
            index = c.index + 1;
            page = none;
            pages = c.pages ++ (c.index, filled) ∷ [];
            overrun = past;
          }
          else record c { page = some filled; overrun = past })
      else record c { page = some p }

  -- The callback for one piece; each round takes at least one byte.
  unfoldable pub cut_piece : ℕ → ℕ → List ℕ → Cut → Cut
  unfolding cut_part
  cut_piece zero byte bytes c = c
  cut_piece (suc fuel) byte bytes c =
      let part = min (length bytes) (page_size - (byte - byte / page_size * page_size)) in
      let rest =
        cut_piece fuel (byte + part) (drop part bytes) (cut_part byte (take part bytes) c) in
      if length bytes == 0 then c else rest

  -- All pieces: where each starts in the read, and its bytes.
  unfoldable pub fetch_pages : List (ℕ × List ℕ) → Cut → Cut
  unfolding cut_piece
  fetch_pages [] c = c
  fetch_pages ((offset, bytes) ∷ pieces) c =
      fetch_pages pieces (cut_piece (length bytes) offset bytes c)

  abbrev pub fetch_start : Cut
  fetch_start = record { index = start; page = none; pages = []; overrun = false }
