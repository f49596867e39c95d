-- ===== src/PageBackend/Cutting.antt =====
-- FetchPages of PageBackend.cpp gives each page of the read once, with its bytes.
use mathlib.Core.List.{append_assoc, append-nil}
use andromeda_desktop_client.Common.{
  ℕ, ◌+◌, ◌-◌, ◌*◌, ◌/◌, ◌≤◌, ◌<◌, ◌≡◌, refl, sym, ◌∙◌, ◌⊎◌, dec_lt, ap, Bool, true, false, ◌||◌,
  if◌then◌else◌, ltb, ◌==◌, ==_iff, List, [], ◌∷◌, ◌++◌, Option, none, some, inl, inr, arith,
  length, take, replicate, min, sub64_small, word, length-append, length-replicate,
}
use andromeda_desktop_client.PageBackend.{Cut, room, read_size, open_page, copy_in, cut_part}
use andromeda_desktop_client.PageBackend.Pieces.{
  joined, joined-append, div_unique, take_whole, take-copy_in, length-copy_in,
}

module _ (page_size backend_size start count : ℕ) (pos : 0 < page_size)
    (small : backend_size < word) (inside : start * page_size < backend_size) where
  abbrev pub total : ℕ
  total = read_size page_size backend_size start count

  -- Pages under consecutive indices, each with the size of its page in the file.
  abbrev pub Sized : ℕ → List (ℕ × List ℕ) → Type 0
  Sized i [] = Unit {0}
  Sized i ((j, p) ∷ ps) =
      (j ≡ i) × (length p ≡ room page_size backend_size start i) × Sized (i + 1) ps

  Sized-append :
      (i j : ℕ) (p : List ℕ) (ps : List (ℕ × List ℕ))
      → Sized i ps
      → j ≡ i + length ps
      → length p ≡ room page_size backend_size start j
      → Sized i (ps ++ (j, p) ∷ [])
  Sized-append i j p [] s e h =
      let here : j ≡ i = omega (arith, e) in
      (here, h ∙ ap (room page_size backend_size start) here, tt)
  Sized-append i j p ((k, q) ∷ ps) s e h =
      (s.0, s.1, Sized-append (i + 1) j p ps s.2 (omega (arith, e)) h)

  -- The bytes seen so far are the pages that are done and a first part of the open page.
  abbrev pub Partial : List ℕ → ℕ → List (ℕ × List ℕ) → Option (List ℕ) → Type 0
  Partial seen i ps none =
      (joined ps ≡ seen) × ((length seen ≡ length ps * page_size) ⊎ (length seen ≡ total))
  Partial seen i ps (some p) =
      (f : ℕ) × (length p ≡ room page_size backend_size start i)
      × (0 < f)
      × (f < length p)
      × (joined ps ++ take f p ≡ seen)
      × (length seen ≡ length ps * page_size + f)

  pub record Cuts (seen : List ℕ) (c : Cut) : Type 0 where
    pub numbered : c.index ≡ start + length c.pages
    pub sized : Sized start c.pages
    pub clean : c.overrun ≡ false
    pub partial : Partial seen c.index c.pages c.page

  -- What is left of a read fits in the page that it is in.
  room_lem :
      (q : ℕ)
      → q * page_size < total
      → room page_size backend_size start (start + q)
        ≡ min (backend_size - start * page_size - q * page_size) page_size
  unfolding room read_size
  room_lem q h =
      let split : (start + q) * page_size ≡ start * page_size + q * page_size = grind arith in
      let at : (start + q) * page_size ≤ backend_size = omega (arith, split, h) in
      omega (arith, sub64_small backend_size ((start + q) * page_size) at small, split)

  pub total_le : total ≤ backend_size - start * page_size
  unfolding read_size
  total_le = omega arith

  -- The size of the page that the read has come to.
  pub room_here :
      (c : Cut)
      → c.index ≡ start + length c.pages
      → length c.pages * page_size < total
      → room page_size backend_size start c.index
        ≡ min (backend_size - start * page_size - length c.pages * page_size) page_size
  room_here c e h = ap (room page_size backend_size start) e ∙ room_lem (length c.pages) h

  abbrev pub opened : Cut → List ℕ
  opened c = open_page page_size backend_size start c.index c.page

  -- `f` bytes of the open page are filled.
  pub record Open (seen : List ℕ) (c : Cut) (p : List ℕ) (f : ℕ) : Type 0 where
    pub whole : length p ≡ room page_size backend_size start c.index
    pub part : f < length p
    pub bytes : joined c.pages ++ take f p ≡ seen
    pub count_seen : length seen ≡ length c.pages * page_size + f

  -- While bytes are missing, a page is open, or a new one is opened.
  pub Cuts-Open :
      (seen : List ℕ) (c : Cut)
      → Cuts seen c
      → length seen < total
      → (f : ℕ) × Open seen c (opened c) f
  Cuts-Open seen c k lt = go c.page k.partial
    where
      go :
          (o : Option (List ℕ))
          → Partial seen c.index c.pages o
          → (f : ℕ) × Open seen c (open_page page_size backend_size start c.index o) f
      go none (e, inr full) = absurd (omega (arith, full, lt))
      go none (e, inl full) =
          let at : length c.pages * page_size < total = omega (arith, full, lt) in
          let size : length (replicate {A = ℕ} (room page_size backend_size start c.index) 0)
              ≡ room page_size backend_size start c.index =
            length-replicate (room page_size backend_size start c.index) 0 in
          (
            0,
            record {
              whole = size;
              part = omega (arith, size, at, room_here c k.numbered at, total_le, pos);
              bytes = append-nil (joined c.pages) ∙ e;
              count_seen = omega (arith, full);
            },
          )
      go (some p) (f, whole, some_bytes, part, e, n) =
          (f, record { whole = whole; part = part; bytes = e; count_seen = n })

  abbrev cut_after : List ℕ → Cut → List ℕ → ℕ → Bool → Cut
  cut_after bytes c p f done =
      let past = c.overrun || ltb (length p) (f + length bytes) in
      if done
      then record {
        index = c.index + 1;
        page = none;
        pages = c.pages ++ (c.index, copy_in f bytes p) ∷ [];
        overrun = past;
      }
      else record c { page = some (copy_in f bytes p); overrun = past }

  -- The next byte is in the open page.
  page_lem :
      (byte : ℕ) (seen : List ℕ) (c : Cut) (f : ℕ)
      → Open seen c (opened c) f
      → byte ≡ length seen
      → f < page_size
      → byte / page_size ≡ length c.pages
  page_lem byte seen c f o at lt =
      div_unique byte (length c.pages) page_size (omega (arith, at, o.count_seen))
        (omega (arith, at, o.count_seen, lt))

  pub offset_lem :
      (byte : ℕ) (seen : List ℕ) (c : Cut) (f : ℕ)
      → Open seen c (opened c) f
      → byte ≡ length seen
      → f < page_size
      → byte - byte / page_size * page_size ≡ f
  offset_lem byte seen c f o at lt =
      rw (page_lem byte seen c f o at lt) (omega (arith, at, o.count_seen))

  pub in_page : (c : Cut) (seen : List ℕ) (f : ℕ) → Open seen c (opened c) f → f < page_size
  unfolding room
  in_page c seen f o = omega (arith, o.part, o.whole)

  -- The round at the next byte is for the open page.
  cut_part_lem :
      (byte : ℕ) (bytes seen : List ℕ) (c : Cut) (f : ℕ)
      → Cuts seen c
      → Open seen c (opened c) f
      → byte ≡ length seen
      → f < page_size
      → cut_part page_size backend_size start byte bytes c
        ≡ cut_after bytes c (opened c) f (f + length bytes == length (opened c))
  unfolding cut_part
  cut_part_lem byte bytes seen c f k o at lt =
      let r : byte - length c.pages * page_size ≡ f = omega (arith, at, o.count_seen) in
      let same : (length c.pages == c.index - start) ≡ true =
        (==_iff (length c.pages) (c.index - start)).1 (omega (arith, k.numbered)) in
      rw (page_lem byte seen c f o at lt, r, same) refl

  -- What has been filled, when `bytes` more are in the page.
  fits :
      (bytes seen : List ℕ) (c : Cut) (f : ℕ)
      → Cuts seen c
      → Open seen c (opened c) f
      → 0 < length bytes
      → f + length bytes ≤ page_size
      → length seen + length bytes ≤ total
      → f + length bytes ≤ length (opened c)
  fits bytes seen c f k o some_bytes inside_page inside_read =
      let at : length c.pages * page_size < total = omega (arith, o.count_seen) in
      omega (arith, o.whole, o.count_seen, room_here c k.numbered at, total_le, inside_read)

  grown :
      (bytes seen : List ℕ) (c : Cut) (p : List ℕ) (f : ℕ)
      → Open seen c p f
      → f + length bytes ≤ length p
      → joined c.pages ++ take (f + length bytes) (copy_in f bytes p) ≡ seen ++ bytes
  grown bytes seen c p f o le =
      ap (λ t. joined c.pages ++ t) (take-copy_in f bytes p (omega (arith, o.part)))
      ∙ sym (append_assoc (joined c.pages) (take f p) bytes)
      ∙ ap (λ t. t ++ bytes) o.bytes

  clean_lem : (c : Cut) (n m : ℕ) → c.overrun ≡ false → m ≤ n → (c.overrun || ltb n m) ≡ false
  clean_lem c n m e le = let fine : ltb n m ≡ false = ground arith in rw (e, fine) refl

  -- A page that is done is whole, or the read ends with it.
  ends :
      (bytes seen : List ℕ) (c : Cut) (f : ℕ)
      → Cuts seen c
      → Open seen c (opened c) f
      → f + length bytes ≡ length (opened c)
      → 0 < length bytes
      → length seen + length bytes ≤ total
      → (length seen + length bytes ≡ (length c.pages + 1) * page_size)
        ⊎ (length seen + length bytes ≡ total)
  ends bytes seen c f k o full some_bytes inside_read =
      let at : length c.pages * page_size < total =
        omega (arith, o.count_seen, inside_read, some_bytes) in
      let next : (length c.pages + 1) * page_size ≡ length c.pages * page_size + page_size =
        grind arith in
      let left = backend_size - start * page_size - length c.pages * page_size in
      elim (dec_lt left page_size) [
        | yes lt ↦ inr (
            omega (
              arith,
              lt,
              full,
              o.whole,
              o.count_seen,
              room_here c k.numbered at,
              total_le,
              inside_read,
            ))
        | no ge ↦
            inl (omega (arith, ge, full, o.whole, o.count_seen, room_here c k.numbered at, next))
      ]

  cut_after-Cuts :
      (bytes seen : List ℕ) (c : Cut) (f : ℕ) (done : Bool)
      → Cuts seen c
      → Open seen c (opened c) f
      → 0 < length bytes
      → f + length bytes ≤ length (opened c)
      → length seen + length bytes ≤ total
      → (f + length bytes == length (opened c)) ≡ done
      → Cuts (seen ++ bytes) (cut_after bytes c (opened c) f done)
  cut_after-Cuts bytes seen c f true k o some_bytes le inside_read e =
      let p = opened c in
      let full : f + length bytes ≡ length p = (==_iff (f + length bytes) (length p)).0 e in
      let filled = copy_in f bytes p in
      let size : length filled ≡ length p = length-copy_in f bytes p le in
      let number : length (c.pages ++ (c.index, filled) ∷ []) ≡ length c.pages + 1 =
        length-append c.pages ((c.index, filled) ∷ []) in
      record {
        numbered = omega (arith, number, k.numbered);
        sized = Sized-append start c.index filled c.pages k.sized k.numbered (size ∙ o.whole);
        clean = clean_lem c (length p) (f + length bytes) k.clean le;
        partial = (
          joined-append c.pages c.index filled
              ∙ ap (λ t. joined c.pages ++ t)
                  (sym (take_whole (f + length bytes) filled (full ∙ sym size)))
              ∙ grown bytes seen c p f o le,
          rw (length-append seen bytes, number)
              (ends bytes seen c f k o full some_bytes inside_read),
        );
      }
  cut_after-Cuts bytes seen c f false k o some_bytes le inside_read e =
      let p = opened c in
      let filled = copy_in f bytes p in
      let size : length filled ≡ length p = length-copy_in f bytes p le in
      let within : f + length bytes < length filled = ground arith in
      record {
        numbered = k.numbered;
        sized = k.sized;
        clean = clean_lem c (length p) (f + length bytes) k.clean le;
        partial = (
          f + length bytes,
          size ∙ o.whole,
          omega (arith, some_bytes),
          within,
          grown bytes seen c p f o le,
          omega (arith, length-append seen bytes, o.count_seen),
        );
      }

  pub cut_part-Cuts :
      (byte : ℕ) (bytes seen : List ℕ) (c : Cut) (f : ℕ)
      → Cuts seen c
      → Open seen c (opened c) f
      → byte ≡ length seen
      → 0 < length bytes
      → f + length bytes ≤ page_size
      → length seen + length bytes ≤ total
      → Cuts (seen ++ bytes) (cut_part page_size backend_size start byte bytes c)
  cut_part-Cuts byte bytes seen c f k o at some_bytes inside_page inside_read =
      rw (cut_part_lem byte bytes seen c f k o at (in_page c seen f o)) (
        cut_after-Cuts bytes seen c f (f + length bytes == length (opened c)) k o some_bytes
          (fits bytes seen c f k o some_bytes inside_page inside_read) inside_read refl)
