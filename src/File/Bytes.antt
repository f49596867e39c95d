-- ===== src/File/Bytes.antt =====
-- A file as a function from offsets to bytes: the bytes of a range, and a range overwritten.
use andromeda_desktop_client.Common.{
  ℕ, zero, suc, ◌+◌, ◌≤◌, ◌<◌, ◌≡◌, refl, ◌∙◌, ap, ap₂, ℕ_discrete, if◌then◌else◌, ◌==◌, List, [],
  ◌∷◌, ◌++◌, arith, length, replicate,
}

abbrev pub Content : Type 0
Content = ℕ → ℕ

unfoldable pub slice : Content → ℕ → ℕ → List ℕ
slice f b zero = []
slice f b (suc n) = f b ∷ slice f (b + 1) n

unfoldable pub patch : Content → ℕ → List ℕ → Content
patch f b [] k = f k
patch f b (x ∷ xs) k = if k == b then x else patch f (b + 1) xs k

pub length-slice : (f : Content) (b n : ℕ) → length (slice f b n) ≡ n
unfolding slice
length-slice f b zero = refl
length-slice f b (suc n) = omega (arith, length-slice f (b + 1) n)

pub slice_append : (f : Content) (b m n : ℕ) → slice f b (m + n) ≡ slice f b m ++ slice f (b + m) n
unfolding slice
slice_append f b zero n = ap₂ (slice f) (omega arith) (omega arith)
slice_append f b (suc m) n =
    let one : suc m + n ≡ suc (m + n) = omega arith in
    let next : b + 1 + m ≡ b + suc m = omega arith in
    ap (slice f b) one
    ∙ ap (λ t. f b ∷ t)
        (slice_append f (b + 1) m n ∙ ap (λ c. slice f (b + 1) m ++ slice f c n) next)

pub slice_same : (f g : Content) (b n : ℕ) → ((k : ℕ) → f k ≡ g k) → slice f b n ≡ slice g b n
unfolding slice
slice_same f g b zero h = refl
slice_same f g b (suc n) h = ap₂ ◌∷◌ (h b) (slice_same f g (b + 1) n h)

pub patch-below : (f : Content) (b k : ℕ) (xs : List ℕ) → k < b → patch f b xs k ≡ f k
unfolding patch
patch-below f b k [] h = refl
patch-below f b k (x ∷ xs) h = ground (arith, patch-below f (b + 1) k xs)

-- Overwriting depends on the old bytes alone.
pub patch_same :
    (f g : Content) (b k : ℕ) (xs : List ℕ) → f k ≡ g k → patch f b xs k ≡ patch g b xs k
unfolding patch
patch_same f g b k [] h = h
patch_same f g b k (x ∷ xs) h = ground (arith, patch_same f g (b + 1) k xs h)

pub patch_zeros : (f : Content) (b k n : ℕ) → (b ≤ k → f k ≡ 0) → patch f b (replicate n 0) k ≡ f k
unfolding patch
patch_zeros f b k zero h = refl
patch_zeros f b k (suc n) h =
    ground (arith, patch_zeros f (b + 1) k n (λ l. h (omega (arith, l))), h)

pub patch-append :
    (f : Content) (b k : ℕ) (xs ys : List ℕ)
    → patch (patch f b xs) (b + length xs) ys k ≡ patch f b (xs ++ ys) k
unfolding patch
patch-append f b k [] ys = let here : b + 0 ≡ b = omega arith in ap (λ c. patch f c ys k) here
patch-append f b k (x ∷ xs) ys = elim (ℕ_discrete k b) [
  | yes e ↦
      let first = patch-below (patch f b (x ∷ xs)) (b + suc (length xs)) k ys (omega (arith, e)) in
      first ∙ ground arith
  | no d ↦
      let next : b + suc (length xs) ≡ b + 1 + length xs = omega arith in
      let skip : patch f b (x ∷ xs) k ≡ patch f (b + 1) xs k = ground arith in
      patch_same (patch f b (x ∷ xs)) (patch f (b + 1) xs) (b + suc (length xs)) k ys skip
      ∙ ap (λ c. patch (patch f (b + 1) xs) c ys k) next
      ∙ patch-append f (b + 1) k xs ys
      ∙ ground arith
]

-- So does a first part of zeroes.
pub patch_zeros_prefix :
    (f : Content) (b k n : ℕ) (done left : List ℕ)
    → replicate n 0 ≡ done ++ left
    → (b ≤ k → f k ≡ 0)
    → patch f b done k ≡ f k
unfolding patch
patch_zeros_prefix f b k n [] left e h = refl
patch_zeros_prefix f b k zero (x ∷ done) left e h = absurd (cc)
patch_zeros_prefix f b k (suc n) (x ∷ done) left e h =
    let zero_first : 0 ≡ x = cc in
    let rest : replicate n 0 ≡ done ++ left = cc in
    ground (arith, patch_zeros_prefix f (b + 1) k n done left rest (λ l. h (omega (arith, l))), h)
