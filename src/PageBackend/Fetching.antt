-- ===== src/PageBackend/Fetching.antt =====
-- All pieces of a read, for FetchPages of PageBackend.cpp: every page once, with its bytes.
use mathlib.Core.List.{append_assoc, append-nil}
use andromeda_desktop_client.Common.{
  ℕ, zero, suc, ◌+◌, ◌-◌, ◌*◌, ◌/◌, ◌≤◌, ◌<◌, ◌≡◌, refl, sym, ◌∙◌, dec_lt, ap, subst, false, ◌==◌,
  List, [], ◌∷◌, ◌++◌, Option, none, some, inl, arith, length, take, drop, min, word, length-append,
  length-take, length-drop, take-append-drop,
}
use andromeda_desktop_client.PageBackend.{
  Cut, read_size, cut_part, cut_piece, fetch_pages, fetch_start,
}
use andromeda_desktop_client.PageBackend.Pieces.{joined, div_unique}
use andromeda_desktop_client.PageBackend.Cutting.{
  Cuts, Sized, total, Partial, Cuts-Open, in_page, offset_lem, cut_part-Cuts, room_here,
}

module _ (page_size backend_size start count : ℕ) (pos : 0 < page_size)
    (small : backend_size < word) (inside : start * page_size < backend_size) where
  same_bytes :
      {xs ys : List ℕ} {c : Cut}
      → xs ≡ ys
      → Cuts page_size backend_size start count pos small inside xs c
      → Cuts page_size backend_size start count pos small inside ys c
  same_bytes {c = c} e k =
      subst (λ t. Cuts page_size backend_size start count pos small inside t c) e k

  -- A piece that starts where the bytes seen so far end.
  cut_piece-Cuts :
      (fuel byte : ℕ) (bytes seen : List ℕ) (c : Cut)
      → length bytes ≤ fuel
      → byte ≡ length seen
      → length seen + length bytes ≤ total page_size backend_size start count pos small inside
      → Cuts page_size backend_size start count pos small inside seen c
      → Cuts page_size backend_size start count pos small inside
          (seen ++ bytes)
          (cut_piece page_size backend_size start fuel byte bytes c)
  unfolding cut_piece
  cut_piece-Cuts zero byte [] seen c enough at le k = rw (append-nil seen) k
  cut_piece-Cuts zero byte (b ∷ bytes) seen c enough at le k = absurd (omega arith)
  cut_piece-Cuts (suc fuel) byte [] seen c enough at le k = rw (append-nil seen) k
  cut_piece-Cuts (suc fuel) byte (b ∷ bytes) seen c enough at le k =
      let (f, o) =
        Cuts-Open page_size backend_size start count pos small inside seen c k
          (omega (arith, le)) in
      let lt : f < page_size =
        in_page page_size backend_size start count pos small inside c seen f o in
      let e =
        offset_lem page_size backend_size start count pos small inside byte seen c f o at lt in
      let part = min (length (b ∷ bytes)) (page_size - (byte - byte / page_size * page_size)) in
      let n : length (take part (b ∷ bytes)) ≡ part = length-take part (b ∷ bytes) ∙ omega arith in
      let m = length-append seen (take part (b ∷ bytes)) in
      let next : Cuts page_size backend_size start count pos small inside
          (seen ++ take part (b ∷ bytes))
          (cut_part page_size backend_size start byte (take part (b ∷ bytes)) c) =
        cut_part-Cuts page_size backend_size start count pos small inside byte
          (take part (b ∷ bytes)) seen c f k o at (omega (arith, n, lt, e))
          (omega (arith, n, lt, e)) (omega (arith, n, le)) in
      let all : (seen ++ take part (b ∷ bytes)) ++ drop part (b ∷ bytes) ≡ seen ++ (b ∷ bytes) =
        append_assoc seen (take part (b ∷ bytes)) (drop part (b ∷ bytes))
        ∙ ap (λ t. seen ++ t) (take-append-drop part (b ∷ bytes)) in
      let more : (suc (length bytes) == 0) ≡ false = ground arith in
      rw more (
        same_bytes all (
          cut_piece-Cuts fuel (byte + part) (drop part (b ∷ bytes)) (seen ++ take part (b ∷ bytes))
            _ (omega (arith, length-drop part (b ∷ bytes), enough, lt, e)) (omega (arith, m, n, at))
            (omega (arith, m, n, length-drop part (b ∷ bytes), le)) next))

  between : (q f n s : ℕ) → q * s + f ≡ n * s → 0 < f → f < s → ⊥
  between q f n s e some_bytes lt =
      let left : (n * s) / s ≡ q =
        div_unique (n * s) q s (omega (arith, e)) (omega (arith, e, lt)) in
      let right : (n * s) / s ≡ n = div_unique (n * s) n s (omega arith) (omega (arith, lt)) in
      let same : q * s ≡ n * s = ap (λ t. t * s) (sym left ∙ right) in
      omega (arith, same, e, some_bytes)

  -- A read does not end inside a page.
  not_whole :
      (q f : ℕ)
      → q * page_size + f ≡ total page_size backend_size start count pos small inside
      → 0 < f
      → f < min (backend_size - start * page_size - q * page_size) page_size
      → ⊥
  unfolding read_size
  not_whole q f e some_bytes lt =
      let swap : page_size * count ≡ count * page_size = grind arith in
      elim (dec_lt (backend_size - start * page_size) (count * page_size)) [
        | yes short ↦ omega (arith, short, e, lt, some_bytes, swap)
        | no long ↦
            between q f count page_size (omega (arith, e, swap, long)) some_bytes
              (omega (arith, lt))
      ]

  -- With all bytes of the read, no page is open.
  finished-Cuts :
      (seen : List ℕ) (c : Cut)
      → Cuts page_size backend_size start count pos small inside seen c
      → length seen ≡ total page_size backend_size start count pos small inside
      → (c.page ≡ none) × (joined c.pages ≡ seen)
  finished-Cuts seen c k e = go c.page k.partial
    where
      go :
          (o : Option (List ℕ))
          → Partial page_size backend_size start count pos small inside seen c.index c.pages o
          → (o ≡ none) × (joined c.pages ≡ seen)
      go none h = (refl, h.0)
      go (some p) (f, whole, some_bytes, part, bytes, n) =
          let at : length c.pages * page_size
              < total page_size backend_size start count pos small inside =
            omega (arith, n, e, some_bytes) in
          absurd (
            not_whole (length c.pages) f (omega (arith, n, e)) some_bytes (
              subst (λ t. f < t)
                (whole
                  ∙ room_here page_size backend_size start count pos small inside c k.numbered at)
                part))

  -- What FetchPages has given to the handler in the end.
  pub record Fetched (bytes : List ℕ) (c : Cut) : Type 0 where
    pub sized : Sized page_size backend_size start count pos small inside start c.pages
    pub complete : joined c.pages ≡ bytes
    pub finished : c.page ≡ none
    clean : c.overrun ≡ false

  abbrev pub Follows : ℕ → List (ℕ × List ℕ) → Type 0
  Follows n [] = Unit {0}
  Follows n ((offset, bytes) ∷ pieces) = (offset ≡ n) × Follows (n + length bytes) pieces

  fetch_pages-Cuts :
      (pieces : List (ℕ × List ℕ)) (seen : List ℕ) (c : Cut)
      → Follows (length seen) pieces
      → length seen + length (joined pieces)
        ≤ total page_size backend_size start count pos small inside
      → Cuts page_size backend_size start count pos small inside seen c
      → Cuts page_size backend_size start count pos small inside
          (seen ++ joined pieces)
          (fetch_pages page_size backend_size start pieces c)
  unfolding fetch_pages
  fetch_pages-Cuts [] seen c h le k = rw (append-nil seen) k
  fetch_pages-Cuts ((offset, bytes) ∷ pieces) seen c h le k =
      let n : length (bytes ++ joined pieces) ≡ length bytes + length (joined pieces) =
        length-append bytes (joined pieces) in
      let m : length (seen ++ bytes) ≡ length seen + length bytes = length-append seen bytes in
      same_bytes (append_assoc seen bytes (joined pieces)) (
        fetch_pages-Cuts pieces (seen ++ bytes) _ (rw m h.1) (omega (arith, le, n, m)) (
          cut_piece-Cuts (length bytes) offset bytes seen c (omega arith) h.0 (omega (arith, le, n))
            k))

  -- FetchPages, when the read brings all of its bytes in pieces one after the other: the handler
  -- has been given the pages of the read under consecutive indices from the first on, each with the
  -- size that its page has in the file, and put together they are the bytes of the read; no page is
  -- left unfinished, and no copy went past the end of a page.
  pub fetch_pages_lem :
      (pieces : List (ℕ × List ℕ))
      → Follows 0 pieces
      → length (joined pieces) ≡ total page_size backend_size start count pos small inside
      → Fetched (joined pieces) (
          fetch_pages page_size backend_size start pieces
            (fetch_start page_size backend_size start))
  fetch_pages_lem pieces h e =
      let k =
        fetch_pages-Cuts pieces [] (fetch_start page_size backend_size start) h (omega (arith, e))
          record {
            numbered = omega arith;
            sized = tt;
            clean = refl;
            partial = (refl, inl (omega arith));
          } in
      let (done, complete) = finished-Cuts (joined pieces) _ k e in
      record { sized = k.sized; complete = complete; finished = done; clean = k.clean }
