-- ===== src/PageManager/Truncate.antt =====
-- Truncate of PageManager.cpp, of a file whose cache manager is disabled.
use mathlib.Core.List.{append-nil}
use andromeda_desktop_client.Common.{
  dec_lt, ℕ, ◌+◌, ◌-◌, ◌*◌, ◌/◌, ◌≤◌, ◌<◌, ◌≡◌, refl, sym, subst, lt→ltb, ◌∙◌, ap, inl, inr, true,
  false, not, ◌&&◌, ◌||◌, if◌then◌else◌, ltb, ◌==◌, List, [], ◌∷◌, ◌++◌, Option, none, some, arith,
  length, min, take, replicate, Bool-cases,
}
use andromeda_desktop_client.PageManager.{PageManager, cut}
use andromeda_desktop_client.PageManager.Pages.{Page, PageMap, page_length, resize, find_page}
use andromeda_desktop_client.PageManager.Flush.{
  Refuses, Flushed, flushed, refused, and_then, backend_truncate,
}
use andromeda_desktop_client.PageManager.Received.{length-resize}

unfoldable pub truncate_pages : ℕ → ℕ → PageMap → PageMap
truncate_pages page_size new_size [] = []
truncate_pages page_size new_size ((i, p) ∷ ps) =
    let rest = truncate_pages page_size new_size ps in
    if new_size == 0 || ltb ((new_size - 1) / page_size) i
    then rest
    else if i == (new_size - 1) / page_size
    then (i, resize p (new_size - i * page_size)) ∷ rest
    else if not (page_length p == page_size)
    then (i, resize p page_size) ∷ rest
    else (i, p) ∷ rest

unfoldable pub truncate : Refuses → PageManager → ℕ → Flushed
unfolding truncate_pages backend_truncate
truncate refuses m new_size = and_then (backend_truncate refuses m new_size) (λ d _.
    flushed (record d { file_size = new_size; pages = truncate_pages d.page_size new_size d.pages })
      0)

-- Every page starts inside the file, and ends with the file or is whole.
abbrev pub Sized : ℕ → ℕ → PageMap → Type 0
Sized page_size file_size [] = Unit {0}
Sized page_size file_size ((i, p) ∷ ps) =
    (i * page_size < file_size)
    × (page_length p ≡ min page_size (file_size - i * page_size))
    × Sized page_size file_size ps

-- What Truncate leaves of a page, by its index alone.
unfoldable pub cut_page : ℕ → ℕ → ℕ → Page → Option Page
cut_page page_size new_size i p =
    if ltb (i * page_size) new_size
    then some (resize p (min page_size (new_size - i * page_size)))
    else none

past_end : (i n s : ℕ) → 0 < s → 0 < n → (n - 1) / s < i → n ≤ i * s
past_end i n s h k l = grind arith

inside : (i n s : ℕ) → 0 < s → 0 < n → i ≤ (n - 1) / s → i * s < n
inside i n s h k l = grind arith

last_short : (n s : ℕ) → 0 < s → 0 < n → n - (n - 1) / s * s ≤ s
last_short n s h k = grind arith

whole : (i n s : ℕ) → 0 < s → 0 < n → i < (n - 1) / s → s ≤ n - i * s
whole i n s h k l =
    let next : (i + 1) * s < n = inside (i + 1) n s h k (omega (arith, l)) in grind arith

take-length {ℓ} : {A : Type ℓ} (xs : List A) → take (length xs) xs ≡ xs
take-length [] = refl
take-length (x ∷ xs) = ap (λ t. x ∷ t) (take-length xs)

resize-length : (p : Page) (n : ℕ) → page_length p ≡ n → resize p n ≡ p
unfolding resize
resize-length p n h =
    let none_new : n - length p.bytes ≡ 0 = omega (arith, h) in
    let bytes : take n p.bytes ++ replicate (n - length p.bytes) 0 ≡ p.bytes =
      rw (none_new, sym h) (append-nil (take (length p.bytes) p.bytes) ∙ take-length p.bytes) in
    ap (λ (bs : List ℕ). record p { bytes = bs }) bytes

-- The three cases of the loop for one page.
truncate_pages-cons :
    (s n i : ℕ) (p : Page) (ps : PageMap)
    → 0 < s
    → truncate_pages s n ((i, p) ∷ ps) ≡ (
        if ltb (i * s) n
        then (i, resize p (min s (n - i * s))) ∷ truncate_pages s n ps
        else truncate_pages s n ps)
unfolding truncate_pages
truncate_pages-cons s n i p ps h = elim (dec_lt (i * s) n) [
  | no k ↦ ground (arith, inside i n s h)
  | yes k ↦ elim (dec_lt i ((n - 1) / s)) [
    | yes l ↦ ground (arith, past_end i n s h, whole i n s h, resize-length p s)
    | no l ↦ ground (arith, past_end i n s h, last_short n s h)
  ]
]

le→ltb-false : (a b : ℕ) → b ≤ a → ltb a b ≡ false
le→ltb-false a b h = ground arith

truncate_pages-Sized : (s n : ℕ) (ps : PageMap) → 0 < s → Sized s n (truncate_pages s n ps)
truncate_pages-Sized s n [] h = unfold truncate_pages in tt
truncate_pages-Sized s n ((i, p) ∷ ps) h =
    subst (Sized s n) (sym (truncate_pages-cons s n i p ps h)) (elim (dec_lt (i * s) n) [
      | yes k ↦
          rw (lt→ltb (i * s) n k)
            (k, length-resize p (min s (n - i * s)), truncate_pages-Sized s n ps h)
      | no k ↦ rw (le→ltb-false (i * s) n (omega (arith, k))) (truncate_pages-Sized s n ps h)
    ])

abbrev pub cut_found : ℕ → ℕ → ℕ → Option Page → Option Page
cut_found s n i none = none
cut_found s n i (some p) = cut_page s n i p

cut_found-past : (s n i : ℕ) (o : Option Page) → n ≤ i * s → cut_found s n i o ≡ none
unfolding cut_page
cut_found-past s n i none h = refl
cut_found-past s n i (some p) h = ground arith

find_page-truncate_pages :
    (s n i : ℕ) (ps : PageMap)
    → 0 < s
    → find_page i (truncate_pages s n ps) ≡ cut_found s n i (find_page i ps)
unfolding find_page cut_page
find_page-truncate_pages s n i [] h = unfold truncate_pages in refl
find_page-truncate_pages s n i ((j, p) ∷ ps) h =
    let ih = find_page-truncate_pages s n i ps h in
    rw (truncate_pages-cons s n j p ps h)
      (ground (arith, ih, cut_found-past s n i (find_page i ps)))

-- What Truncate promises.
abbrev pub Truncates : Refuses → PageManager → ℕ → Flushed → Type 0
Truncates refuses m n (flushed d written) =
    (d.file_size ≡ n)
    × Sized m.page_size n d.pages
    × ((i : ℕ) → find_page i d.pages ≡ cut_found m.page_size n i (find_page i m.pages))
Truncates refuses m n (refused d) = (d ≡ m) × (m.backend_exists ≡ true) × (refuses m (cut n) ≡ true)

-- Truncate sets the file size to the new size; each page of the map is then inside the file, and as
-- long as a page or as what the file has of it; and the map has at each index the page it had, cut
-- or extended by zeroes to that length, if it starts before the new size, and nothing otherwise.
-- Where the server refuses to cut the file, nothing has changed. The page size is positive.
pub truncate-Truncates :
    (refuses : Refuses) (m : PageManager) (n : ℕ)
    → 0 < m.page_size
    → Truncates refuses m n (truncate refuses m n)
unfolding truncate backend_truncate
truncate-Truncates refuses m n h =
    let found = λ (i : ℕ). find_page-truncate_pages m.page_size n i m.pages h in
    let sized = truncate_pages-Sized m.page_size n m.pages h in
    elim (Bool-cases (m.backend_exists && not (m.backend_size == n))) [
      | inr e ↦ rw e (refl, sized, found)
      | inl e ↦ elim (Bool-cases (refuses m (cut n))) [
        | inr k ↦ rw (e, k) (refl, sized, found)
        | inl k ↦ rw (e, k) (refl, ground arith, k)
      ]
    ]
