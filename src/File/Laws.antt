-- ===== src/File/Laws.antt =====
-- What File.cpp relies on of the pages: the file as one range of bytes, which a read gives and a
-- write overwrites. A write of a page does not create the file on the server: that leaves out a cache
-- manager that evicts pages of the same file at once, within the call.
use andromeda_desktop_client.Common.{
  ℕ, ◌+◌, ◌-◌, ◌*◌, ◌≤◌, ◌<◌, ◌≡◌, List, some, max, length, arith,
}
use andromeda_desktop_client.File.{Pages, page_of, offset_of, length_of}
use andromeda_desktop_client.File.Bytes.{Content, slice, patch}

pub record Laws (P : Pages) : Type 0 where
  pub content : P.State → Content
  pub page_size_pos : 0 < P.page_size
  -- Past its end a file reads as zeroes.
  pub content_beyond : (s : P.State) (k : ℕ) → P.file_size s ≤ k → content s k ≡ 0
  pub read_page_slice :
      (s : P.State) (i o n : ℕ) (bs : List ℕ) (t : P.State)
      → o + n ≤ P.page_size
      → i * P.page_size + o + n ≤ P.file_size s
      → P.read_page s i o n ≡ some (bs, t)
      → (bs ≡ slice (content s) (i * P.page_size + o) n)
        × (P.file_size t ≡ P.file_size s)
        × ((k : ℕ) → content t k ≡ content s k)
  pub write_page_patch :
      (s : P.State) (i o : ℕ) (bs : List ℕ) (t : P.State)
      → o + length bs ≤ P.page_size
      → P.write_page s i o bs ≡ some t
      → ((k : ℕ) → content t k ≡ patch (content s) (i * P.page_size + o) bs k)
        × (P.file_size t ≡ max (P.file_size s) (i * P.page_size + o + length bs))
        × (P.exists t ≡ P.exists s)

module _ (P : Pages) where
  -- The part of a range in one page: where it starts, and that it fits and is not empty.
  pub page_of-offset_of : (byte : ℕ) → page_of P byte * P.page_size + offset_of P byte ≡ byte
  page_of-offset_of byte = grind arith

  pub offset_of-length_of :
      (byte stop : ℕ) → 0 < P.page_size → offset_of P byte + length_of P byte stop ≤ P.page_size
  offset_of-length_of byte stop h = grind arith

  pub length_of_pos : (byte stop : ℕ) → 0 < P.page_size → byte < stop → 0 < length_of P byte stop
  length_of_pos byte stop h lt = grind arith

  pub length_of-le : (byte stop : ℕ) → length_of P byte stop ≤ stop - byte
  length_of-le byte stop = omega arith
