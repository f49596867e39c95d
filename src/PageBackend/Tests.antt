-- ===== src/PageBackend/Tests.antt =====
-- Tests of the model of FetchPages.
use andromeda_desktop_client.Common.{ℕ, ◌≡◌, refl, List, [], ◌∷◌, arith, none, false, sub64}
use andromeda_desktop_client.PageBackend.{read_size, fetch_pages, fetch_start}
use andromeda_desktop_client.PageBackend.Pieces.{joined}
use andromeda_desktop_client.PageBackend.Fetching.{Fetched, fetch_pages_lem}

-- The second and the third page of a file of ten bytes, in two pieces.
abbrev pieces : List (ℕ × List ℕ)
pieces = (0, 21 ∷ 22 ∷ 23 ∷ []) ∷ (3, 24 ∷ 31 ∷ 32 ∷ []) ∷ []

two_pieces : fetch_pages 4 10 1 pieces (fetch_start 4 10 1) ≡ record {
  index = 3;
  page = none;
  pages = (1, 21 ∷ 22 ∷ 23 ∷ 24 ∷ []) ∷ (2, 31 ∷ 32 ∷ []) ∷ [];
  overrun = false;
}
unfolding fetch_pages sub64
two_pieces = refl

-- After a retry, the part of a page that is done is not for the open page.
retried :
    fetch_pages 4 10 1
      ((0, 21 ∷ 22 ∷ 23 ∷ 24 ∷ 31 ∷ []) ∷ (0, 21 ∷ 22 ∷ 23 ∷ 24 ∷ 31 ∷ 32 ∷ []) ∷ [])
      (fetch_start 4 10 1)
    ≡ record {
      index = 3;
      page = none;
      pages = (1, 21 ∷ 22 ∷ 23 ∷ 24 ∷ []) ∷ (2, 31 ∷ 32 ∷ []) ∷ [];
      overrun = false;
    }
unfolding fetch_pages sub64
retried = refl

fetch_pages_lem_example :
    Fetched 4 10 1 2
      (omega arith)
      (omega arith)
      (omega arith)
      (joined pieces)
      (fetch_pages 4 10 1 pieces (fetch_start 4 10 1))
unfolding read_size
fetch_pages_lem_example =
    fetch_pages_lem 4 10 1 2 (omega arith) (omega arith) (omega arith) pieces (refl, (refl, tt))
      refl
