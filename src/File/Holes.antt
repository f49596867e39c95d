-- ===== src/File/Holes.antt =====
-- WriteBytes of File.cpp, with the zeroes that FillWriteHole writes before the range.
use andromeda_desktop_client.Common.{
  ℕ, zero, suc, ◌+◌, ◌-◌, ◌≤◌, ◌<◌, ◌≡◌, ◌≢◌, refl, ◌∙◌, subst, List, [], ◌++◌, inl, inr, min, max,
  arith, length, replicate, length-replicate, ltb, ltb→lt, ltb-false→le, Bool, Bool-cases,
}
use andromeda_desktop_client.File.{
  Pages, Written, wrote, thrown, and_then, Error, deep, fill_loop, write_pages,
}
use andromeda_desktop_client.File.Bytes.{patch, patch_same, patch_zeros, patch_zeros_prefix}
use andromeda_desktop_client.File.Laws.{Laws}
use andromeda_desktop_client.File.Writes.{Patched, WritesRange, write_loop-WritesRange}

module _ (P : Pages) (L : Laws P) where
  open P use {State, page_size, file_size, exists}
  open L use {content}

  -- The range is overwritten and the file reaches to its end, or a first part of the range is
  -- overwritten and the write has thrown; nothing else is changed.
  abbrev pub Writes : State → ℕ → List ℕ → Written State → Type 0
  Writes s offset bs (wrote t) =
      Patched P L s t offset bs
      × (0 < length bs → file_size t ≡ max (file_size s) (offset + length bs))
      × (exists t ≡ exists s)
  Writes s offset bs (thrown e t) =
      (e ≢ deep)
      × ((done : List ℕ) × (left : List ℕ) × (bs ≡ done ++ left) × Patched P L s t offset done)

  pub refused-Writes :
      (s : State) (offset : ℕ) (bs : List ℕ) (e : Error)
      → e ≢ deep
      → Writes s offset bs (thrown e s)
  unfolding patch
  refused-Writes s offset bs e h = (h, ([], bs, refl, λ k. refl))

  WritesRange-Writes :
      (s : State) (offset : ℕ) (bs : List ℕ) (r : Written State)
      → WritesRange P L s offset bs r
      → Writes s offset bs r
  WritesRange-Writes s offset bs (wrote t) (h, f, x) = (h, λ pos. ground arith, x)
  WritesRange-Writes s offset bs (thrown e t) (h, w) = (λ q. cc, w)

  pub write_pages-Writes :
      (s : State) (offset : ℕ) (bs : List ℕ) → Writes s offset bs (write_pages P offset bs s)
  write_pages-Writes s offset bs =
      WritesRange-Writes s offset bs (write_pages P offset bs s)
        (write_loop-WritesRange P L (length bs) offset (offset + length bs) bs s refl (omega arith))

  -- A hole is filled: the bytes of the file are as before, and it reaches to the end of the hole.
  abbrev pub Filled : State → ℕ → Written State → Type 0
  Filled s offset (wrote t) =
      ((k : ℕ) → content t k ≡ content s k)
      × (file_size t ≡ max (file_size s) offset)
      × (exists t ≡ exists s)
  Filled s offset (thrown e t) = (e ≢ deep) × ((k : ℕ) → content t k ≡ content s k)

  pub Filled-Writes :
      (s : State) (offset : ℕ) (bs : List ℕ) (r : Written State)
      → file_size s ≤ offset
      → Filled s offset r
      → Writes s offset bs (and_then r (write_pages P offset bs))
  unfolding patch
  Filled-Writes s offset bs (thrown e t) le (h, k) = (h, ([], bs, refl, k))
  Filled-Writes s offset bs (wrote t) le (k, f, x) =
      go (write_pages P offset bs t) (write_pages-Writes t offset bs)
    where
      go : (r : Written State) → Writes t offset bs r → Writes s offset bs r
      go (wrote u) (h, g, y) = (
        λ i. h i ∙ patch_same (content t) (content s) offset i bs (k i),
        λ pos. omega (arith, g pos, f, le),
        y ∙ x,
      )
      go (thrown e u) (h, (done, left, q, p)) =
          (h, (done, left, q, λ i. p i ∙ patch_same (content t) (content s) offset i done (k i)))

  zeros-Filled :
      (s : State) (n : ℕ) (r : Written State)
      → 0 < n
      → Writes s (file_size s) (replicate n 0) r
      → Filled s (file_size s + n) r
  zeros-Filled s n (wrote t) pos (h, f, x) = (
    λ k. h k ∙ patch_zeros (content s) (file_size s) k n (L.content_beyond s k),
    omega
        (arith, f (omega (arith, length-replicate {A = ℕ} n 0, pos)), length-replicate {A = ℕ} n 0),
    x,
  )
  zeros-Filled s n (thrown e t) pos (h, (done, left, q, p)) = (
    h,
    λ k. p k ∙ patch_zeros_prefix (content s) (file_size s) k n done left q (L.content_beyond s k),
  )

  Filled-trans :
      (s t : State) (mid offset : ℕ) (r : Written State)
      → Filled s mid (wrote t)
      → mid ≤ offset
      → Filled t offset r
      → Filled s offset r
  Filled-trans s t mid offset (wrote u) (h, f, x) le (k, g, y) =
      (λ i. k i ∙ h i, omega (arith, f, g, le), y ∙ x)
  Filled-trans s t mid offset (thrown e u) (h, f, x) le (g, k) = (g, λ i. k i ∙ h i)

  -- Each round writes zeroes from the end of the file on.
  pub fill_loop-Filled :
      (write : ℕ → List ℕ → State → Written State) (found : Bool)
      → ((t : State) (bs : List ℕ)
          → exists t ≡ found
          → Writes t (file_size t) bs (write (file_size t) bs t))
      → (fuel hole offset : ℕ) (s : State) → exists s ≡ found
      → file_size s ≡ min hole offset
      → offset ≤ hole + fuel
      → Filled s offset (fill_loop P write fuel hole offset s)
  unfolding fill_loop
  fill_loop-Filled write found law zero hole offset s x e f = (λ k. refl, omega arith, refl)
  fill_loop-Filled write found law (suc fuel) hole offset s x e f =
      elim (Bool-cases (ltb hole offset)) [
        | inr done ↦
            let le = ltb-false→le hole offset done in
            rw (done, fill_loop) (λ k. refl, omega (arith, le, e), refl)
        | inl more ↦
            let lt = ltb→lt hole offset more in
            let n = min (offset - hole) page_size in
            let here : file_size s ≡ hole = omega (arith, lt, e) in
            rw (more, fill_loop)
              (go (write hole (replicate n 0) s)
                (subst (λ c. Filled s (c + n) (write hole (replicate n 0) s)) here
                  (zeros-Filled s n (write hole (replicate n 0) s)
                    (omega (arith, lt, L.page_size_pos))
                    (subst (λ c. Writes s (file_size s) (replicate n 0) (write c (replicate n 0) s))
                      here (law s (replicate n 0) x))))
                (λ t y g.
                  fill_loop-Filled write found law fuel (hole + page_size) offset t (y ∙ x)
                    (omega (arith, g, lt)) (omega (arith, f, L.page_size_pos)))
                here lt)
      ]
    where
      go :
          (r : Written State)
          → Filled s (hole + min (offset - hole) page_size) r
          → ((t : State)
              → exists t ≡ exists s
              → file_size t ≡ max (file_size s) (hole + min (offset - hole) page_size)
              → Filled t offset (fill_loop P write fuel (hole + page_size) offset t))
          → file_size s ≡ hole
          → hole < offset
          → Filled s offset (and_then r (λ t. fill_loop P write fuel (hole + page_size) offset t))
      go (thrown c u) h g here lt = h
      go (wrote t) h g here lt =
          Filled-trans s t (hole + min (offset - hole) page_size) offset
            (fill_loop P write fuel (hole + page_size) offset t) h (omega (arith, lt)) (g t h.2 h.1)
