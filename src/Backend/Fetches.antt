-- ===== src/Backend/Fetches.antt =====
-- FetchPages of PageBackend.cpp reading through ReadFile of BackendImpl.cpp and HTTPRunner.cpp.
use andromeda_desktop_client.Common.{
  ℕ, ◌+◌, ◌*◌, ◌≤◌, ◌<◌, ◌≡◌, ◌≢◌, refl, sym, ◌∙◌, ap, true, false, ltb, ◌==◌, List, [], ◌∷◌, ◌++◌,
  inl, inr, arith, max, length, word, Bool-cases, subst, length-append,
}
use andromeda_desktop_client.PageBackend.{Cut, fetch_pages, fetch_start}
use andromeda_desktop_client.PageBackend.Pieces.{joined}
use andromeda_desktop_client.PageBackend.Cutting.{total}
use andromeda_desktop_client.PageBackend.Fetching.{Follows, Fetched, fetch_pages_lem}
use andromeda_desktop_client.Backend.HttpRunner.{
  Response, Options, HttpRunner, want_retry, handle_response,
}
use andromeda_desktop_client.Backend.Downloads.{Download, receive, read_file, placed, stream_out}

abbrev Received : ℕ → ℕ → List (ℕ × List ℕ) → Download → Type 0
Received len read pieces d =
    (d.complete ≡ true → (d.handed ≡ pieces) × (read + length (joined pieces) ≡ len))
    × (d.complete ≡ false → read + length (joined pieces) ≢ len)

abbrev pub flat : List (List ℕ) → List ℕ
flat [] = []
flat (bytes ∷ parts) = bytes ++ flat parts

joined-placed : (offset : ℕ) (parts : List (List ℕ)) → joined (placed offset parts) ≡ flat parts
unfolding placed
joined-placed offset [] = refl
joined-placed offset (bytes ∷ parts) =
    ap (λ t. bytes ++ t) (joined-placed (offset + length bytes) parts)

error_parts :
    (o : Options) (s : HttpRunner) (r : Response) (parts : List (List ℕ))
    → want_retry r ≡ true
    → stream_out o true s r parts ≡ placed 0 parts
unfolding stream_out handle_response
error_parts o s r parts w = rw w refl

module _ (page_size backend_size start count : ℕ) (pos : 0 < page_size)
    (small : backend_size < word) (inside : start * page_size < backend_size) where
  abbrev InOrder : ℕ → List (ℕ × List ℕ) → Type 0
  InOrder = Follows page_size backend_size start count pos small inside

  abbrev size : ℕ
  size = total page_size backend_size start count pos small inside

  receive-Received :
      (len read : ℕ) (pieces : List (ℕ × List ℕ))
      → read ≤ len
      → InOrder read pieces
      → Received len read pieces (receive len read pieces)
  unfolding receive
  receive-Received len read [] le h = (λ e. (refl, ground arith), λ e q. ground arith)
  receive-Received len read ((offset, bytes) ∷ pieces) le (at, h) =
      let n = length-append bytes (joined pieces) in
      let now : max read (offset + length bytes) ≡ read + length bytes = omega (arith, at) in
      elim (Bool-cases (ltb len (offset + length bytes))) [
        | inl e ↦ rw e (λ q. absurd (cc), λ q r. ground (arith, n, r))
        | inr e ↦
            let ih = receive-Received len (read + length bytes) pieces (ground arith) h in
            rw (e, now)
              (
                λ q.
                    let (same, whole) = ih.0 q in
                    (ap (λ t. (offset, bytes) ∷ t) same, omega (arith, n, whole)),
                λ q r. ih.1 q (omega (arith, n, r)),
              )
      ]

  is_zero : (n : ℕ) → 0 < n → (n == 0) ≡ false
  is_zero n h = ground (arith, h)

  placed-InOrder : (offset : ℕ) (parts : List (List ℕ)) → InOrder offset (placed offset parts)
  unfolding placed
  placed-InOrder offset [] = tt
  placed-InOrder offset (bytes ∷ parts) = (refl, placed-InOrder (offset + length bytes) parts)

  abbrev cut : List (ℕ × List ℕ) → Cut
  cut pieces =
      fetch_pages page_size backend_size start pieces (fetch_start page_size backend_size start)

  -- FetchPages on what ReadFile hands to it, where the response brings its bytes in order, as many
  -- as it will, to a read of at least one byte: ReadFile throws exactly if they are not as many as
  -- were asked for, and if it returns, they are as many and the handler of FetchPages has been
  -- given all pages with these bytes.
  pub read_file-Fetched :
      (pieces : List (ℕ × List ℕ))
      → 0 < size
      → InOrder 0 pieces
      → ((read_file size pieces).complete ≡ true
          → (length (joined pieces) ≡ size)
            × Fetched page_size backend_size start count pos small inside
                (joined pieces)
                (cut (read_file size pieces).handed))
        × ((read_file size pieces).complete ≡ false → length (joined pieces) ≢ size)
  unfolding read_file
  read_file-Fetched pieces some_bytes h =
      let r = receive-Received size 0 pieces (omega arith) h in
      rw (is_zero size some_bytes) (
        λ e.
            let (same, whole) = r.0 e in
            let all : length (joined pieces) ≡ size = omega (arith, whole) in
            (
              all,
              rw same (
                  fetch_pages_lem page_size backend_size start count pos small inside pieces h all),
            ),
        λ e q. r.1 e (omega (arith, q)),
      )

  -- A response with the status 500 or 503 to a request that may be tried again: its body, where it
  -- is as long as the range that was asked for, goes to ReadFile and to FetchPages, and the handler
  -- is given its bytes as pages of the file.
  pub stream_out-Fetched :
      (o : Options) (s : HttpRunner) (r : Response) (parts : List (List ℕ))
      → want_retry r ≡ true
      → 0 < size
      → length (flat parts) ≡ size
      → Fetched page_size backend_size start count pos small inside
          (flat parts)
          (cut (read_file size (stream_out o true s r parts)).handed)
  stream_out-Fetched o s r parts w some_bytes e =
      let pieces = placed 0 parts in
      let same : stream_out o true s r parts ≡ pieces = error_parts o s r parts w in
      let bytes = joined-placed 0 parts in
      let both = read_file-Fetched pieces some_bytes (placed-InOrder 0 parts) in
      subst
        (λ p.
          Fetched page_size backend_size start count pos small inside (flat parts)
            (cut (read_file size p).handed))
        (sym same)
        (subst
          (λ t.
            Fetched page_size backend_size start count pos small inside t
              (cut (read_file size pieces).handed))
          bytes
          (elim (Bool-cases (read_file size pieces).complete) [
            | inl c ↦ (both.0 c).1
            | inr c ↦ absurd (both.1 c (ap length bytes ∙ e))
          ]))
