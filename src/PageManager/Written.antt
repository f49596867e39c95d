-- ===== src/PageManager/Written.antt =====
-- WritePage of PageManager.cpp and the ReadPage after it.
use andromeda_desktop_client.Common.{
  ℕ, zero, suc, ◌+◌, ◌-◌, ◌*◌, ◌/◌, ◌≤◌, ◌≡◌, refl, ap, inl, inr, Bool, true, false, not, ◌&&◌,
  ◌||◌, ltb, leb, List, [], ◌∷◌, ◌++◌, Option, none, some, arith, length, min, max, take, drop,
  Bool-cases, Option-cases, length-take,
}
use andromeda_desktop_client.PageManager.{PageManager}
use andromeda_desktop_client.PageManager.Pages.{
  Page, PageMap, page_length, resize, find_page, emplace_page,
}
use andromeda_desktop_client.PageManager.Received.{length-resize}
use andromeda_desktop_client.PageManager.Write.{
  set_page, Fetch, set_found, extend_last, fetched, get_page_write, copy_in, copied, write_page,
  copy_out,
}

find_page-set_page :
    (i : ℕ) (p q : Page) (ps : PageMap)
    → find_page i ps ≡ some q
    → find_page i (set_page i p ps) ≡ some p
unfolding find_page set_page
find_page-set_page i p q [] h = absurd (cc)
find_page-set_page i p q ((j, r) ∷ ps) h = ground (arith, find_page-set_page i p q ps)

find_page-set_other :
    (i j : ℕ) (p : Page) (ps : PageMap)
    → find_page i ps ≡ none
    → find_page i (set_page j p ps) ≡ none
unfolding find_page set_page
find_page-set_other i j p [] h = refl
find_page-set_other i j p ((k, r) ∷ ps) h = ground (arith, find_page-set_other i j p ps)

find_page-emplace_page :
    (i : ℕ) (p : Page) (ps : PageMap)
    → find_page i ps ≡ none
    → find_page i (emplace_page i p ps) ≡ some p
unfolding find_page emplace_page
find_page-emplace_page i p [] h = ground arith
find_page-emplace_page i p ((k, r) ∷ ps) h = ground (arith, find_page-emplace_page i p ps)

drop-length : (n : ℕ) (xs ys : List ℕ) → length xs ≡ n → drop n (xs ++ ys) ≡ ys
drop-length zero [] ys h = refl
drop-length zero (x ∷ xs) ys h = absurd (omega arith)
drop-length (suc n) [] ys h = absurd (omega arith)
drop-length (suc n) (x ∷ xs) ys h = drop-length n xs ys (omega (arith, h))

take-append : (xs ys : List ℕ) → take (length xs) (xs ++ ys) ≡ xs
take-append [] ys = refl
take-append (x ∷ xs) ys = ap (λ t. x ∷ t) (take-append xs ys)

copy_out-copy_in :
    (offset : ℕ) (buffer : List ℕ) (p : Page)
    → offset ≤ page_length p
    → copy_out offset (length buffer) (copy_in offset buffer p) ≡ buffer
unfolding copy_out copy_in
copy_out-copy_in offset buffer p h =
    rw
      (drop-length offset (take offset p.bytes) (buffer ++ drop (offset + length buffer) p.bytes)
        (omega (arith, length-take offset p.bytes, h)))
      (take-append buffer (drop (offset + length buffer) p.bytes))

find_page-set_found :
    (i j size : ℕ) (o : Option Page) (ps : PageMap)
    → find_page i ps ≡ none
    → find_page i (set_found j size o ps) ≡ none
unfolding set_found
find_page-set_found i j size none ps h = h
find_page-set_found i j size (some p) ps h = find_page-set_other i j (resize p size) ps h

find_page-extend_last :
    (m : PageManager) (start i : ℕ)
    → find_page i m.pages ≡ none
    → find_page i (extend_last m start) ≡ none
unfolding extend_last
find_page-extend_last m start i h = elim (Bool-cases (ltb m.file_size start && ltb 0 m.file_size)) [
  | inl e ↦
      let last = (m.file_size - 1) / m.page_size in
      rw e (find_page-set_found i last m.page_size (find_page last m.pages) m.pages h)
  | inr e ↦ rw e h
]

-- What GetPageWrite answers: a map that has the page, at the asked size.
abbrev Gives : Fetch → PageManager → ℕ → ℕ → Option PageMap → Type 0
Gives fetch m index size none = (fetch index ≡ none) × (find_page index m.pages ≡ none)
Gives fetch m index size (some ps) =
    (p : Page) × (find_page index ps ≡ some p) × (page_length p ≡ size)

fetched-Gives :
    (fetch : Fetch) (m : PageManager) (index size : ℕ) (o : Option (List ℕ))
    → find_page index m.pages ≡ none
    → fetch index ≡ o
    → Gives fetch m index size (fetched index size m.pages o)
fetched-Gives fetch m index size none h e = (e, h)
fetched-Gives fetch m index size (some bytes) h e =
    let p : Page = record { bytes = bytes; dirty = false } in
    (resize p size, find_page-emplace_page index (resize p size) m.pages h, length-resize p size)

get_page_write-Gives :
    (fetch : Fetch) (m : PageManager) (index size : ℕ) (partial : Bool)
    → Gives fetch m index size (get_page_write fetch m index size partial)
unfolding get_page_write
get_page_write-Gives fetch m index size partial = elim (Option-cases (find_page index m.pages)) [
  | inr (p, e) ↦
      rw (e, get_page_write)
        (resize p size, find_page-set_page index (resize p size) p m.pages e, length-resize p size)
  | inl e ↦ elim (Bool-cases (leb m.backend_size (index * m.page_size) || not partial)) [
    | inr k ↦ rw (e, get_page_write, k) (fetched-Gives fetch m index size (fetch index) e refl)
    | inl k ↦
        let p : Page = record { bytes = []; dirty = false } in
        rw (e, get_page_write, k)
          (
            resize p size,
            find_page-emplace_page index (resize p size) (extend_last m (index * m.page_size))
                (find_page-extend_last m (index * m.page_size) index e),
            length-resize p size,
          )
  ]
]

abbrev pub end_of : PageManager → ℕ → ℕ → List ℕ → ℕ
end_of m index offset buffer = index * m.page_size + offset + length buffer

-- What WritePage promises.
abbrev pub Writes : Fetch → PageManager → ℕ → ℕ → List ℕ → Option PageManager → Type 0
Writes fetch m index offset buffer none = (fetch index ≡ none) × (find_page index m.pages ≡ none)
Writes fetch m index offset buffer (some after) =
    (after.file_size ≡ max m.file_size (end_of m index offset buffer))
    × ((p : Page) × (find_page index after.pages ≡ some p)
        × (p.dirty ≡ true)
        × (copy_out offset (length buffer) p ≡ buffer))

copied-Writes :
    (fetch : Fetch) (m : PageManager) (index offset size : ℕ) (buffer : List ℕ) (o : Option PageMap)
    → offset ≤ size
    → Gives fetch m index size o
    → Writes fetch m index offset buffer
        (copied m (max m.file_size (end_of m index offset buffer)) index offset buffer o)
copied-Writes fetch m index offset size buffer none h g = g
copied-Writes fetch m index offset size buffer (some ps) h (p, e, l) = rw e (
  refl,
  (
    copy_in offset buffer p,
    find_page-set_page index (copy_in offset buffer p) p ps e,
    unfold copy_in in refl,
    copy_out-copy_in offset buffer p (omega (arith, h, l)),
  ),
)

-- After WritePage, ReadPage of the same range copies out of the page what was written; the page is
-- dirty, and the file reaches to the end of the write and no less far than before. WritePage throws
-- only where the page is not in the map and the server does not give it. The range is inside the
-- page.
pub write_page-Writes :
    (fetch : Fetch) (m : PageManager) (index offset : ℕ) (buffer : List ℕ)
    → offset + length buffer ≤ m.page_size
    → Writes fetch m index offset buffer (write_page fetch m index offset buffer)
unfolding write_page
write_page-Writes fetch m index offset buffer h =
    let new_size = max m.file_size (end_of m index offset buffer) in
    let size = min (new_size - index * m.page_size) m.page_size in
    copied-Writes fetch m index offset size buffer
      (get_page_write fetch m index size (ltb 0 offset || ltb (length buffer) size))
      (omega (arith, h))
      (get_page_write-Gives fetch m index size (ltb 0 offset || ltb (length buffer) size))
