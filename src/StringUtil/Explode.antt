-- ===== src/StringUtil/Explode.antt =====
-- explode of StringUtil.cpp cuts a text into pieces that implode puts together again.
use mathlib.Core.List.{
  append_assoc, map, reverse, reverse-cons, reverse-append, reverse-reverse, concat-ne-nil,
}
use andromeda_desktop_client.Common.{
  ℕ, zero, suc, ◌+◌, ◌≡◌, ◌≢◌, refl, sym, ◌∙◌, ap, Bool, true, false, ltb, leb, List, [], ◌∷◌, ◌++◌,
  some, inl, inr, arith, length, take, drop, Bool-cases, Option-cases,
}
use andromeda_desktop_client.StringUtil.{is_prefix, find, implode, explode_loop, reversed, explode}

is_prefix-append : (d s : List ℕ) → is_prefix d s ≡ true → d ++ drop (length d) s ≡ s
is_prefix-append [] s h = refl
is_prefix-append (x ∷ d) [] h = absurd (cc)
is_prefix-append (x ∷ d) (y ∷ s) h =
    let same : x ≡ y = ground arith in
    let rest : is_prefix d s ≡ true = ground arith in
    ap (λ t. t ∷ (d ++ drop (length d) s)) same ∙ ap (λ t. y ∷ t) (is_prefix-append d s rest)

-- What is found stands there.
here-append :
    (d s : List ℕ) (n : ℕ)
    → n ≡ 0
    → is_prefix d s ≡ true
    → take n s ++ (d ++ drop (n + length d) s) ≡ s
here-append d s n z h =
    ap (λ t. take t s ++ (d ++ drop (t + length d) s)) z
    ∙ ap (λ t. d ++ drop t s) (omega arith)
    ∙ is_prefix-append d s h

later-append :
    (d s : List ℕ) (x n m : ℕ)
    → n ≡ suc m
    → take m s ++ (d ++ drop (m + length d) s) ≡ s
    → take n (x ∷ s) ++ (d ++ drop (n + length d) (x ∷ s)) ≡ x ∷ s
later-append d s x n m e h =
    ap (λ t. take t (x ∷ s) ++ (d ++ drop (t + length d) (x ∷ s))) e
    ∙ ap (λ t. x ∷ (take m s ++ (d ++ drop t (x ∷ s)))) (shift m (length d))
    ∙ ap (λ t. x ∷ t) h
  where
    shift : (i j : ℕ) → suc i + j ≡ suc (i + j)
    shift i j = omega arith

find-append :
    (d s : List ℕ) (n : ℕ) → find d s ≡ some n → take n s ++ (d ++ drop (n + length d) s) ≡ s
unfolding find
find-append d [] n h = elim (Bool-cases (is_prefix d [])) [
  | inl e ↦ here-append d [] n (ground arith) e
  | inr e ↦ absurd (ground arith)
]
find-append d (x ∷ s) n h = elim (Bool-cases (is_prefix d (x ∷ s))) [
  | inl e ↦ here-append d (x ∷ s) n (ground arith) e
  | inr e ↦ elim (Option-cases (find d s)) [
    | inl q ↦ absurd (ground arith)
    | inr (m, q) ↦ later-append d s x n m (ground arith) (find-append d s m q)
  ]
]

implode-cons :
    (glue p : List ℕ) (ps : List (List ℕ))
    → ps ≢ []
    → implode glue (p ∷ ps) ≡ p ++ (glue ++ implode glue ps)
unfolding implode
implode-cons glue p [] h = absurd (h refl)
implode-cons glue p (q ∷ ps) h = append_assoc p glue (implode glue (q ∷ ps))

implode-singleton : (glue p : List ℕ) → implode glue (p ∷ []) ≡ p
unfolding implode
implode-singleton glue p = refl

module _ (delim : List ℕ) (skip max : ℕ) where
  explode_loop-ne_nil :
      (fuel size : ℕ) (el : List ℕ) (skipped : ℕ) (str : List ℕ)
      → explode_loop delim skip max fuel size el skipped str ≢ []
  unfolding explode_loop
  explode_loop-ne_nil zero size el skipped str h = cc
  explode_loop-ne_nil (suc fuel) size el skipped str h = elim (Bool-cases (ltb (size + 1) max)) [
    | inr e ↦ ground (arith, h)
    | inl e ↦ elim (Option-cases (find delim str)) [
      | inl q ↦ ground (arith, h)
      | inr (n, q) ↦ elim (Bool-cases (leb skip skipped)) [
        | inl r ↦ ground (arith, h)
        | inr r ↦
            explode_loop-ne_nil fuel size (el ++ take n str ++ delim) (skipped + 1)
              (drop (n + length delim) str) (ground (arith, h))
      ]
    ]
  ]

  -- The pieces are the current piece and the text that is left.
  implode-explode_loop :
      (fuel size : ℕ) (el : List ℕ) (skipped : ℕ) (str : List ℕ)
      → implode delim (explode_loop delim skip max fuel size el skipped str) ≡ el ++ str
  unfolding explode_loop
  implode-explode_loop zero size el skipped str = implode-singleton delim (el ++ str)
  implode-explode_loop (suc fuel) size el skipped str = elim (Bool-cases (ltb (size + 1) max)) [
    | inr e ↦ rw (explode_loop, e) (implode-singleton delim (el ++ str))
    | inl e ↦ elim (Option-cases (find delim str)) [
      | inl q ↦ rw (explode_loop, e, q) ((implode-singleton delim (el ++ str)))
      | inr (n, q) ↦ elim (Bool-cases (leb skip skipped)) [
        | inl r ↦
            rw (explode_loop, e, q, r)
              ((implode-cons delim (el ++ take n str) _
                  (explode_loop-ne_nil fuel (size + 1) [] skipped (drop (n + length delim) str))
                ∙ ap (λ t. (el ++ take n str) ++ (delim ++ t))
                    (implode-explode_loop fuel (size + 1) [] skipped (drop (n + length delim) str))
                ∙ append_assoc el (take n str) (delim ++ drop (n + length delim) str)
                ∙ ap (λ t. el ++ t) (find-append delim str n q)))
        | inr r ↦
            rw (explode_loop, e, q, r)
              ((implode-explode_loop fuel size (el ++ take n str ++ delim) (skipped + 1)
                  (drop (n + length delim) str)
                ∙ append_assoc (el ++ take n str) delim (drop (n + length delim) str)
                ∙ append_assoc el (take n str) (delim ++ drop (n + length delim) str)
                ∙ ap (λ t. el ++ t) (find-append delim str n q)))
      ]
    ]
  ]

implode-append :
    (glue p : List ℕ) (ps : List (List ℕ))
    → ps ≢ []
    → implode glue (ps ++ p ∷ []) ≡ implode glue ps ++ (glue ++ p)
unfolding implode
implode-append glue p [] h = absurd (h refl)
implode-append glue p (q ∷ []) h = append_assoc q glue p
implode-append glue p (q ∷ r ∷ ps) h =
    ap (λ t. (q ++ glue) ++ t) (implode-append glue p (r ∷ ps) (λ e. cc))
    ∙ sym (append_assoc (q ++ glue) (implode glue (r ∷ ps)) (glue ++ p))

reverse-implode :
    (glue : List ℕ) (ps : List (List ℕ))
    → implode (reverse glue) (reverse (map reverse ps)) ≡ reverse (implode glue ps)
reverse-implode glue [] = unfold implode in refl
reverse-implode glue (p ∷ []) = unfold implode in refl
reverse-implode glue (p ∷ q ∷ ps) =
    let tail = map reverse (q ∷ ps) in
    let whole : reverse (implode glue (p ∷ q ∷ ps))
        ≡ reverse (implode glue (q ∷ ps)) ++ (reverse glue ++ reverse p) =
      ap reverse (implode-cons glue p (q ∷ ps) (λ e. cc))
      ∙ reverse-append p (glue ++ implode glue (q ∷ ps))
      ∙ ap (λ t. t ++ reverse p) (reverse-append glue (implode glue (q ∷ ps)))
      ∙ append_assoc (reverse (implode glue (q ∷ ps))) (reverse glue) (reverse p) in
    ap (implode (reverse glue)) (reverse-cons (reverse p) tail)
    ∙ implode-append (reverse glue) (reverse p) (reverse tail) (λ e.
      concat-ne-nil (reverse q) (reverse (map reverse ps))
        (sym (reverse-cons (reverse q) (map reverse ps)) ∙ e))
    ∙ ap (λ t. t ++ (reverse glue ++ reverse p)) (reverse-implode glue (q ∷ ps))
    ∙ sym whole

-- The pieces of explode, put together with the separator between them, are the text, whatever it
-- skips and however many it may give. Where it searches from the end it puts together with the
-- reversed separator.
pub implode-explode :
    (str delim : List ℕ) (skip : ℕ) (backward : Bool) (max : ℕ)
    → implode (reversed backward delim) (explode str delim skip backward max) ≡ str
unfolding explode
implode-explode [] delim skip backward max = unfold implode in refl
implode-explode (x ∷ str) [] skip backward max = implode-singleton (reversed backward []) (x ∷ str)
implode-explode (x ∷ str) (d ∷ delim) skip false max =
    implode-explode_loop (d ∷ delim) skip max (length (x ∷ str)) 0 [] 0 (x ∷ str)
implode-explode (x ∷ str) (d ∷ delim) skip true max =
    let pieces = explode_loop (d ∷ delim) skip max (length (x ∷ str)) 0 [] 0 (reverse (x ∷ str)) in
    reverse-implode (d ∷ delim) pieces
    ∙ ap reverse
        (implode-explode_loop (d ∷ delim) skip max (length (x ∷ str)) 0 [] 0 (reverse (x ∷ str)))
    ∙ reverse-reverse (x ∷ str)
