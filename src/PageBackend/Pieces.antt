-- ===== src/PageBackend/Pieces.antt =====
-- Lists as the memory of a page, and pages put together, for FetchPages of PageBackend.cpp.
use mathlib.Core.List.{append_assoc, append-nil}
use andromeda_desktop_client.Common.{
  ℕ, zero, suc, ◌+◌, ◌*◌, ◌/◌, ◌≤◌, ◌<◌, ◌≡◌, refl, sym, ◌∙◌, ap, List, [], ◌∷◌, ◌++◌, arith,
  length, take, drop, length-append, length-take, length-drop,
}
use andromeda_desktop_client.PageBackend.{copy_in}

abbrev pub joined : List (ℕ × List ℕ) → List ℕ
joined [] = []
joined ((i, p) ∷ ps) = p ++ joined ps

pub joined-append :
    (ps : List (ℕ × List ℕ)) (i : ℕ) (p : List ℕ) → joined (ps ++ (i, p) ∷ []) ≡ joined ps ++ p
joined-append [] i p = append-nil p
joined-append ((j, q) ∷ ps) i p =
    ap (λ t. q ++ t) (joined-append ps i p) ∙ sym (append_assoc q (joined ps) p)

pub div_unique : (n q s : ℕ) → q * s ≤ n → n < q * s + s → n / s ≡ q
div_unique n q s h k = grind arith

take_front : (n : ℕ) (xs ys : List ℕ) → length xs ≡ n → take n (xs ++ ys) ≡ xs
take_front zero [] ys h = refl
take_front zero (x ∷ xs) ys h = absurd (omega arith)
take_front (suc n) [] ys h = absurd (omega arith)
take_front (suc n) (x ∷ xs) ys h = ap (λ t. x ∷ t) (take_front n xs ys (omega (arith, h)))

pub take_whole : (n : ℕ) (xs : List ℕ) → n ≡ length xs → take n xs ≡ xs
take_whole n xs h = ap (take n) (sym (append-nil xs)) ∙ take_front n xs [] (sym h)

pub take-copy_in :
    (offset : ℕ) (bytes p : List ℕ)
    → offset ≤ length p
    → take (offset + length bytes) (copy_in offset bytes p) ≡ take offset p ++ bytes
unfolding copy_in
take-copy_in offset bytes p h =
    let rest = drop (offset + length bytes) p in
    ap (take (offset + length bytes)) (sym (append_assoc (take offset p) bytes rest))
    ∙ take_front (offset + length bytes) (take offset p ++ bytes) rest
        (omega (arith, length-append (take offset p) bytes, length-take offset p, h))

pub length-copy_in :
    (offset : ℕ) (bytes p : List ℕ)
    → offset + length bytes ≤ length p
    → length (copy_in offset bytes p) ≡ length p
unfolding copy_in
length-copy_in offset bytes p h = omega (
  arith,
  length-append (take offset p) (bytes ++ drop (offset + length bytes) p),
  length-append bytes (drop (offset + length bytes) p),
  length-take offset p,
  length-drop (offset + length bytes) p,
  h,
)
