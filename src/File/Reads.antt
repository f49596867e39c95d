-- ===== src/File/Reads.antt =====
-- ReadBytes of File.cpp gives the bytes of the range.
use andromeda_desktop_client.Common.{ℕ, ◌≡◌, none}
use andromeda_desktop_client.File.{Pages, Read, got, failed, backend}
use andromeda_desktop_client.File.Bytes.{slice}
use andromeda_desktop_client.File.Laws.{Laws}

module _ (P : Pages) (L : Laws P) where
  open P use {State, page_size, file_size, read_page}
  open L use {content}

  abbrev pub Same : State → State → Type 0
  Same s t = (file_size t ≡ file_size s) × ((k : ℕ) → content t k ≡ content s k)

  -- The read gives the bytes of the range, or the page manager has thrown at one page; the file is as
  -- before.
  abbrev pub ReadsRange : State → ℕ → ℕ → Read State → Type 0
  ReadsRange s byte n (got bs t) = (bs ≡ slice (content s) byte n) × Same s t
  ReadsRange s byte n (failed e t) =
      (e ≡ backend) × Same s t × ((i : ℕ) × (o : ℕ) × (m : ℕ) × (read_page t i o m ≡ none))
