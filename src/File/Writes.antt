-- ===== src/File/Writes.antt =====
-- The loop of WriteBytes of File.cpp overwrites the range, also where it stops by an exception.
use mathlib.Core.List.{append_assoc}
use andromeda_desktop_client.Common.{
  ℕ, zero, suc, ◌+◌, ◌≤◌, ◌<◌, ◌≡◌, refl, sym, ◌∙◌, ap, subst, List, [], ◌∷◌, ◌++◌, inl, inr, max,
  arith, length, take, drop, take-append-drop, length-take, length-append, length-drop, ltb, ltb→lt,
  ltb-false→le, Bool-cases, Option-cases, if◌then◌else◌, ◌==◌,
}
use andromeda_desktop_client.File.{
  Pages, Written, wrote, thrown, backend, page_of, offset_of, length_of, write_loop,
}
use andromeda_desktop_client.File.Bytes.{patch, patch-append, patch_same}
use andromeda_desktop_client.File.Laws.{
  Laws, page_of-offset_of, offset_of-length_of, length_of_pos, length_of-le,
}

-- The size of a file after a write of some bytes.
abbrev pub grown : ℕ → ℕ → ℕ → ℕ
grown size byte n = if n == 0 then size else max size (byte + n)

module _ (P : Pages) (L : Laws P) where
  open P use {State, page_size, file_size, exists, write_page}
  open L use {content}

  abbrev pub Patched : State → State → ℕ → List ℕ → Type 0
  Patched s t byte bs = (k : ℕ) → content t k ≡ patch (content s) byte bs k

  -- The bytes are written, and the file grows to their end; or a page has thrown, and a first part of
  -- the bytes is written.
  abbrev pub WritesRange : State → ℕ → List ℕ → Written State → Type 0
  WritesRange s byte bs (wrote t) =
      Patched s t byte bs
      × (file_size t ≡ grown (file_size s) byte (length bs))
      × (exists t ≡ exists s)
  WritesRange s byte bs (thrown e t) =
      (e ≡ backend)
      × ((done : List ℕ) × (left : List ℕ) × (bs ≡ done ++ left) × Patched s t byte done)

  Patched-append :
      (s t u : State) (byte : ℕ) (xs ys : List ℕ)
      → Patched s t byte xs
      → Patched t u (byte + length xs) ys
      → Patched s u byte (xs ++ ys)
  Patched-append s t u byte xs ys h g k =
      g k
      ∙ patch_same (content t) (patch (content s) byte xs) (byte + length xs) k ys (h k)
      ∙ patch-append (content s) byte k xs ys

  append-WritesRange :
      (s t : State) (byte : ℕ) (xs ys : List ℕ) (r : Written State)
      → Patched s t byte xs
      → file_size t ≡ max (file_size s) (byte + length xs)
      → exists t ≡ exists s
      → 0 < length xs
      → WritesRange t (byte + length xs) ys r
      → WritesRange s byte (xs ++ ys) r
  append-WritesRange s t byte xs ys (wrote u) h f e pos (g, k, x) =
      (Patched-append s t u byte xs ys h g, ground (arith, length-append xs ys), x ∙ e)
  append-WritesRange s t byte xs ys (thrown c u) h f e pos (g, (done, left, q, k)) = (
    g,
    (
      xs ++ done,
      left,
      ap (λ zs. xs ++ zs) q ∙ sym (append_assoc xs done left),
      Patched-append s t u byte xs done h k,
    ),
  )

  pub write_loop-WritesRange :
      (fuel byte stop : ℕ) (bs : List ℕ) (s : State)
      → stop ≡ byte + length bs
      → length bs ≤ fuel
      → WritesRange s byte bs (write_loop P fuel byte stop bs s)
  unfolding write_loop patch
  write_loop-WritesRange zero byte stop [] s h f = (λ k. refl, refl, refl)
  write_loop-WritesRange zero byte stop (b ∷ bs) s h f = absurd (omega arith)
  write_loop-WritesRange (suc fuel) byte stop bs s h f = elim (Bool-cases (ltb byte stop)) [
    | inr done ↦
        rw (done, write_loop) (none_left bs (omega (arith, h, ltb-false→le byte stop done)))
    | inl more ↦
        let l = length_of P byte stop in
        let lt = ltb→lt byte stop more in
        elim (Option-cases (write_page s (page_of P byte) (offset_of P byte) (take l bs))) [
          | inl e ↦ rw (more, write_loop, e) (refl, ([], bs, refl, λ k. refl))
          | inr (t, e) ↦
              let at = page_of-offset_of P byte in
              let fits = offset_of-length_of P byte stop L.page_size_pos in
              let pos = length_of_pos P byte stop L.page_size_pos lt in
              let small = length_of-le P byte stop in
              let taken : length (take l bs) ≡ l = omega (arith, length-take l bs, small, h) in
              let law =
                L.write_page_patch s (page_of P byte) (offset_of P byte) (take l bs) t
                  (omega (arith, fits, taken)) e in
              let rest =
                write_loop-WritesRange fuel (byte + l) stop (drop l bs) t
                  (omega (arith, h, length-drop l bs, small))
                  (omega (arith, f, length-drop l bs, pos)) in
              rw (more, write_loop, e)
                (subst
                  (λ cs. WritesRange s byte cs (write_loop P fuel (byte + l) stop (drop l bs) t))
                  (take-append-drop l bs)
                  (append-WritesRange s t byte (take l bs) (drop l bs) _
                    (λ k. law.0 k ∙ ap (λ c. patch (content s) c (take l bs) k) at)
                    (omega (arith, law.1, at)) law.2 (omega (arith, taken, pos))
                    (subst
                      (λ c.
                        WritesRange t (byte + c) (drop l bs)
                          (write_loop P fuel (byte + l) stop (drop l bs) t))
                      (sym taken) rest)))
        ]
  ]
    where
      none_left : (cs : List ℕ) → length cs ≡ 0 → WritesRange s byte cs (wrote s)
      none_left [] h = (λ k. refl, refl, refl)
      none_left (c ∷ cs) h = absurd (omega arith)
