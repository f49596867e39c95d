-- ===== src/PageManager/Fetch.antt =====
-- What PageManager.cpp reads ahead: GetFetchSize.
use andromeda_desktop_client.Common.{
  ℕ, zero, suc, ◌+◌, ◌-◌, ◌*◌, ◌≤◌, ◌<◌, ◌≡◌, refl, ◌∙◌, ap, inl, inr, false, if◌then◌else◌, ltb,
  List, [], ◌∷◌, Option, none, some, min, arith, Option-cases, subst,
}
use andromeda_desktop_client.PageManager.Pages.{PageMap, find_page, upper_bound}
use andromeda_desktop_client.PageManager.{
  PageManager, is_fetch_pending, stop_pending, before_next, last_page, read_count, is_some,
  get_fetch_size,
}

-- The indices of the map ascend, from a bound.
abbrev pub Ascending : ℕ → PageMap → Type 0
Ascending b [] = Unit {0}
Ascending b ((j, p) ∷ ps) = (b ≤ j) × Ascending (suc j) ps

find-Ascending : (b i : ℕ) (ps : PageMap) → Ascending b ps → i < b → find_page i ps ≡ none
unfolding find_page
find-Ascending b i [] a h = refl
find-Ascending b i ((j, p) ∷ ps) a h = ground (arith, find-Ascending (suc j) i ps a.1)

-- No page stands between an index and the next one in the map.
upper_bound-none :
    (b index i : ℕ) (ps : PageMap)
    → Ascending b ps
    → index < i
    → upper_bound index ps ≡ none
    → find_page i ps ≡ none
unfolding upper_bound find_page
upper_bound-none b index i [] a lt h = refl
upper_bound-none b index i ((j, p) ∷ ps) a lt h =
    ground (arith, upper_bound-none (suc j) index i ps a.1 lt)

upper_bound-some :
    (b index i next : ℕ) (ps : PageMap)
    → Ascending b ps
    → index < i
    → upper_bound index ps ≡ some next
    → i < next
    → find_page i ps ≡ none
unfolding upper_bound find_page
upper_bound-some b index i next [] a lt h k = refl
upper_bound-some b index i next ((j, p) ∷ ps) a lt h k =
    ground (arith, upper_bound-some (suc j) index i next ps a.1 lt, find-Ascending (suc j) i ps a.1)

stop_pending_bounds :
    (pending : List (ℕ × ℕ)) (index current left : ℕ)
    → (current ≤ stop_pending pending index current left)
      × (stop_pending pending index current left ≤ current + left)
unfolding stop_pending
stop_pending_bounds pending index current zero = omega arith
stop_pending_bounds pending index current (suc left) =
    ground (arith, stop_pending_bounds pending index (suc current) left)

-- Nothing is pending before the place where the loop stops.
stop_pending-free :
    (pending : List (ℕ × ℕ)) (index current left j : ℕ)
    → current ≤ j
    → j < stop_pending pending index current left
    → is_fetch_pending pending (j + index) ≡ false
unfolding stop_pending
stop_pending-free pending index current zero j h lt = absurd (omega arith)
stop_pending-free pending index current (suc left) j h lt =
    ground (arith, stop_pending-free pending index (suc current) left j)

before_next-le : (index : ℕ) (next : Option ℕ) (count : ℕ) → before_next index next count ≤ count
before_next-le index none count = omega arith
before_next-le index (some next) count = omega arith

-- An index that is read ahead comes before the next page.
before_next-none :
    (m : PageManager) (index j count : ℕ)
    → Ascending 0 m.pages
    → 0 < j
    → j < before_next index (upper_bound index m.pages) count
    → find_page (j + index) m.pages ≡ none
before_next-none m index j count a pos lt = elim (Option-cases (upper_bound index m.pages)) [
  | inl e ↦ upper_bound-none 0 index (j + index) m.pages a (omega arith) e
  | inr (next, e) ↦
      upper_bound-some 0 index (j + index) next m.pages a (omega arith) e
        (omega (arith, subst (λ o. j < before_next index o count) e lt))
]

-- The last page of the backend starts before its end.
last_page-lt :
    (m : PageManager) (index : ℕ)
    → 0 < m.page_size
    → 0 < m.backend_size
    → index ≤ last_page m
    → index * m.page_size < m.backend_size
unfolding last_page
last_page-lt m index p s h = grind arith

is_some-false {ℓ} : {A : Type ℓ} (o : Option A) → is_some o ≡ false → o ≡ none
is_some-false none h = refl
is_some-false (some a) h = absurd (cc)

-- What a positive answer of GetFetchSize tells about the index itself.
record Fetchable (m : PageManager) (index : ℕ) : Type 0 where
  in_file : index * m.page_size < m.file_size
  nonempty : 0 < m.backend_size
  in_backend : index ≤ last_page m
  absent : find_page index m.pages ≡ none
  answer : get_fetch_size m index ≡ read_count m index

get_fetch_size-Fetchable :
    (m : PageManager) (index : ℕ) → 0 < get_fetch_size m index → Fetchable m index
unfolding get_fetch_size
get_fetch_size-Fetchable m index h = record {
  in_file = ground arith;
  nonempty = ground arith;
  in_backend = ground arith;
  absent = is_some-false (find_page index m.pages) (ground arith);
  answer = ground arith;
}

read_count-bounds :
    (m : PageManager) (index : ℕ)
    → index ≤ last_page m
    → (read_count m index ≤ last_page m - index + 1)
unfolding read_count
read_count-bounds m index h = ground (
  arith,
  stop_pending_bounds m.pending index 0 (
      before_next index (upper_bound index m.pages)
        (if ltb 0 index then min (last_page m - index + 1) m.fetch_size else 1)),
  before_next-le index (upper_bound index m.pages)
      (if ltb 0 index then min (last_page m - index + 1) m.fetch_size else 1),
)

read_count-free :
    (m : PageManager) (index j : ℕ)
    → j < read_count m index
    → is_fetch_pending m.pending (j + index) ≡ false
unfolding read_count
read_count-free m index j h = stop_pending-free m.pending index 0 _ j (omega arith) h

read_count-none :
    (m : PageManager) (index j : ℕ)
    → Ascending 0 m.pages
    → 0 < j
    → j < read_count m index
    → find_page (j + index) m.pages ≡ none
unfolding read_count
read_count-none m index j a pos h =
    let wanted = if ltb 0 index then min (last_page m - index + 1) m.fetch_size else 1 in
    before_next-none m index j wanted a pos (
      omega (
        arith,
        h,
        stop_pending_bounds m.pending index 0
            (before_next index (upper_bound index m.pages) wanted),
      ))

-- Every page that GetFetchSize allows to fetch, from the given index on, starts before the end of
-- the file on the backend, is not in the map and is not in a pending read; given that the page size
-- is positive and the map is in the order of its indices.
pub get_fetch_size-valid :
    (m : PageManager) (index j : ℕ)
    → 0 < m.page_size
    → Ascending 0 m.pages
    → j < get_fetch_size m index
    → ((j + index) * m.page_size < m.backend_size)
      × (find_page (j + index) m.pages ≡ none)
      × (is_fetch_pending m.pending (j + index) ≡ false)
get_fetch_size-valid m index j p a h =
    let f = get_fetch_size-Fetchable m index (omega arith) in
    let k : j < read_count m index = omega (arith, h, f.answer) in
    (
      last_page-lt m (j + index) p f.nonempty
          (omega (arith, k, read_count-bounds m index f.in_backend, f.in_backend)),
      absent_at j a f.absent k,
      read_count-free m index j k,
    )
  where
    absent_at :
        (j : ℕ)
        → Ascending 0 m.pages
        → find_page index m.pages ≡ none
        → j < read_count m index
        → find_page (j + index) m.pages ≡ none
    absent_at zero a h k = ap (λ i. find_page i m.pages) (omega arith) ∙ h
    absent_at (suc j) a h k = read_count-none m index (suc j) a (omega arith) k

stop_pending_pos :
    (pending : List (ℕ × ℕ)) (index left : ℕ)
    → 0 < left
    → is_fetch_pending pending index ≡ false
    → 0 < stop_pending pending index 0 left
unfolding stop_pending
stop_pending_pos pending index zero h f = absurd (omega arith)
stop_pending_pos pending index (suc left) h f = ground (
  arith,
  stop_pending_bounds pending index 1 left,
  ap (is_fetch_pending pending) (zero_plus index),
)
  where
    zero_plus : (i : ℕ) → 0 + i ≡ i
    zero_plus i = omega arith

upper_bound-lt : (index next : ℕ) (ps : PageMap) → upper_bound index ps ≡ some next → index < next
unfolding upper_bound
upper_bound-lt index next [] h = absurd (cc)
upper_bound-lt index next ((j, p) ∷ ps) h = ground (arith, upper_bound-lt index next ps)

before_next_pos :
    (index count : ℕ) (o : Option ℕ) (ps : PageMap)
    → upper_bound index ps ≡ o
    → 0 < count
    → 0 < before_next index o count
before_next_pos index count none ps h k = k
before_next_pos index count (some next) ps h k = omega (arith, upper_bound-lt index next ps h)

-- A page of the file that the backend has, that is not in the map and that is not pending, is
-- always worth a read: GetFetchSize is positive, as the read-ahead window is never empty.
pub get_fetch_size_pos :
    (m : PageManager) (index : ℕ)
    → 0 < m.fetch_size
    → index * m.page_size < m.file_size
    → 0 < m.backend_size
    → index ≤ last_page m
    → find_page index m.pages ≡ none
    → is_fetch_pending m.pending index ≡ false
    → 0 < get_fetch_size m index
unfolding get_fetch_size read_count
get_fetch_size_pos m index w f b l a n =
    let wanted = if ltb 0 index then min (last_page m - index + 1) m.fetch_size else 1 in
    let some_wanted : 0 < wanted = ground arith in
    let count = before_next_pos index wanted (upper_bound index m.pages) m.pages refl some_wanted in
    let result =
      stop_pending_pos m.pending index (before_next index (upper_bound index m.pages) wanted) count
        n in
    ground (arith, result)
