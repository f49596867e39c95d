-- ===== src/StringUtil/Escape.antt =====
-- escapeAll of StringUtil.cpp puts the escape character before each delimiter and before itself.
use mathlib.Core.List.{append_assoc}
use andromeda_desktop_client.Common.{
  ℕ, zero, suc, ◌+◌, ◌<◌, ◌≡◌, refl, sym, ◌∙◌, ap, Bool, true, false, ◌||◌, if◌then◌else◌, ◌==◌,
  List, [], ◌∷◌, ◌++◌, inl, inr, arith, length, take, drop, Bool-cases, Option-cases,
}
use andromeda_desktop_client.StringUtil.{find, replace_loop, replace_all, escape_delims, escape_all}

-- Each byte by itself.
abbrev pub each : (ℕ → List ℕ) → List ℕ → List ℕ
each f [] = []
each f (x ∷ s) = f x ++ each f s

abbrev pub replaced : ℕ → List ℕ → ℕ → List ℕ
replaced d repl x = if d == x then repl else x ∷ []

module _ (d : ℕ) (repl : List ℕ) where
  loop_here :
      (fuel x : ℕ) (s : List ℕ)
      → (d == x) ≡ true
      → replace_loop (d ∷ []) repl (suc fuel) (x ∷ s) ≡ repl ++ replace_loop (d ∷ []) repl fuel s
  unfolding replace_loop find
  loop_here fuel x s e = rw (replace_loop, find, e) refl

  loop_there :
      (fuel x : ℕ) (s : List ℕ)
      → (d == x) ≡ false
      → replace_loop (d ∷ []) repl (suc fuel) (x ∷ s) ≡ x ∷ replace_loop (d ∷ []) repl (suc fuel) s
  unfolding replace_loop
  loop_there fuel x s e = elim (Option-cases (find (d ∷ []) s)) [
    | inl q ↦ rw (replace_loop, e, q) refl
    | inr (n, q) ↦
        rw (replace_loop, e, q)
          (ap
            (λ m.
              take (suc n) (x ∷ s) ++ (repl ++ replace_loop (d ∷ []) repl fuel (drop m (x ∷ s))))
            (shift n))
  ]
    where
      shift : (n : ℕ) → suc n + 1 ≡ suc (n + 1)
      shift n = omega arith

  replace_loop-each :
      (s : List ℕ) (fuel : ℕ)
      → length s < fuel
      → replace_loop (d ∷ []) repl fuel s ≡ each (replaced d repl) s
  unfolding replace_loop
  replace_loop-each s zero h = absurd (omega (arith, h))
  replace_loop-each [] (suc fuel) h = unfold find in refl
  replace_loop-each (x ∷ s) (suc fuel) h = elim (Bool-cases (d == x)) [
    | inl e ↦
        loop_here fuel x s e
        ∙ ap (λ t. repl ++ t) (replace_loop-each s fuel (omega (arith, h)))
        ∙ ap (λ b. (if b then repl else x ∷ []) ++ each (replaced d repl) s) (sym e)
    | inr e ↦
        loop_there fuel x s e
        ∙ ap (λ t. x ∷ t) (replace_loop-each s (suc fuel) (omega (arith, h)))
        ∙ ap (λ b. (if b then repl else x ∷ []) ++ each (replaced d repl) s) (sym e)
  ]

  replace_all-each : (s : List ℕ) → replace_all s (d ∷ []) repl ≡ each (replaced d repl) s
  unfolding replace_all
  replace_all-each s = replace_loop-each s (length s + 1) (omega arith)

-- Whether escapeAll puts an escape before a byte, for the delimiters and what it has escaped before.
abbrev pub special : List ℕ → (ℕ → Bool) → ℕ → Bool
special [] before x = before x
special (d ∷ delims) before x = special delims (λ y. d == y || before y) x

abbrev pub escaped : ℕ → (ℕ → Bool) → ℕ → List ℕ
escaped escape which x = if which x then escape ∷ x ∷ [] else x ∷ []

-- The delimiters are different from each other and from what has been escaped before.
abbrev pub Different : List ℕ → (ℕ → Bool) → Type 0
Different [] before = Unit {0}
Different (d ∷ delims) before = (before d ≡ false) × Different delims (λ y. d == y || before y)

-- What takes an escape away and keeps the byte behind it.
abbrev pub unescape : ℕ → List ℕ → List ℕ
unescape escape [] = []
unescape escape (x ∷ []) = x ∷ []
unescape escape (x ∷ y ∷ s) =
    let plain = unescape escape (y ∷ s) in
    let rest = unescape escape s in if escape == x then y ∷ rest else x ∷ plain

each_append : (f : ℕ → List ℕ) (s t : List ℕ) → each f (s ++ t) ≡ each f s ++ each f t
each_append f [] t = refl
each_append f (x ∷ s) t =
    ap (λ r. f x ++ r) (each_append f s t) ∙ sym (append_assoc (f x) (each f s) (each f t))

each-each :
    (f g h : ℕ → List ℕ)
    → ((x : ℕ) → each g (f x) ≡ h x)
    → (s : List ℕ) → each g (each f s) ≡ each h s
each-each f g h e [] = refl
each-each f g h e (x ∷ s) =
    each_append g (f x) (each f s)
    ∙ ap (λ t. t ++ each g (each f s)) (e x)
    ∙ ap (λ t. h x ++ t) (each-each f g h e s)

eq_here : (n m : ℕ) → (n == m) ≡ true → n ≡ m
eq_here n m h = ground (arith, h)

same_is : (n : ℕ) → (n == n) ≡ true
same_is n = ground arith

not_before : (before : ℕ → Bool) (d x : ℕ) → before x ≡ true → before d ≡ false → (d == x) ≡ false
not_before before d x h k = elim (Bool-cases (d == x)) [
  | inl e ↦ absurd (true_false (sym h ∙ ap before (sym (eq_here d x e)) ∙ k))
  | inr e ↦ e
]
  where
    true_false : true ≡ false → ⊥
    true_false e = cc

module _ (escape : ℕ) where
  replaced-escaped :
      (before : ℕ → Bool) (d x : ℕ)
      → before escape ≡ true
      → before d ≡ false
      → each (replaced d (escape ∷ d ∷ [])) (escaped escape before x)
        ≡ escaped escape (λ y. d == y || before y) x
  replaced-escaped before d x h k = elim (Bool-cases (before x)) [
    | inl e ↦ rw (e, not_before before d escape h k, not_before before d x e k) refl
    | inr e ↦ elim (Bool-cases (d == x)) [
      | inl q ↦ rw (e, q) (ap (λ t. escape ∷ t ∷ []) (eq_here d x q))
      | inr q ↦ rw (e, q) refl
    ]
  ]

  escape_delims-each :
      (delims : List ℕ) (before : ℕ → Bool) (s : List ℕ)
      → before escape ≡ true
      → Different delims before
      → escape_delims delims escape (each (escaped escape before) s)
        ≡ each (escaped escape (special delims before)) s
  unfolding escape_delims
  escape_delims-each [] before s h k = refl
  escape_delims-each (d ∷ delims) before s h (k, r) =
      ap (escape_delims delims escape) (
        replace_all-each d (escape ∷ d ∷ []) (each (escaped escape before) s)
        ∙ each-each (escaped escape before) (replaced d (escape ∷ d ∷ []))
            (escaped escape (λ y. d == y || before y)) (λ x. replaced-escaped before d x h k) s)
      ∙ escape_delims-each delims (λ y. d == y || before y) s (ground (arith, h)) r

  special_escape :
      (delims : List ℕ) (before : ℕ → Bool)
      → before escape ≡ true
      → special delims before escape ≡ true
  special_escape [] before h = h
  special_escape (d ∷ delims) before h =
      special_escape delims (λ y. d == y || before y) (ground (arith, h))

  unescape-plain :
      (x : ℕ) (s : List ℕ) → (escape == x) ≡ false → unescape escape (x ∷ s) ≡ x ∷ unescape escape s
  unescape-plain x [] h = refl
  unescape-plain x (y ∷ s) h = rw h refl

  unescape-each :
      (which : ℕ → Bool) (s : List ℕ)
      → which escape ≡ true
      → unescape escape (each (escaped escape which) s) ≡ s
  unescape-each which [] h = refl
  unescape-each which (x ∷ s) h = elim (Bool-cases (which x)) [
    | inl e ↦ rw e (rw (same_is escape) (ap (λ t. x ∷ t) (unescape-each which s h)))
    | inr e ↦ rw e (
        unescape-plain x (each (escaped escape which) s)
          (flip x escape (not_before which x escape h e))
        ∙ ap (λ t. x ∷ t) (unescape-each which s h))
  ]
    where
      flip : (a b : ℕ) → (a == b) ≡ false → (b == a) ≡ false
      flip a b h = ground (arith, h)

  first-escaped :
      (s : List ℕ)
      → each (replaced escape (escape ∷ escape ∷ [])) s ≡ each (escaped escape (λ y. escape == y)) s
  first-escaped [] = refl
  first-escaped (x ∷ s) = elim (Bool-cases (escape == x)) [
    | inl e ↦ rw e (
        ap (λ t. escape ∷ t ∷ each (replaced escape (escape ∷ escape ∷ [])) s) (eq_here escape x e)
        ∙ ap (λ t. escape ∷ x ∷ t) (first-escaped s))
    | inr e ↦ rw e (ap (λ t. x ∷ t) (first-escaped s))
  ]

  -- escapeAll, with delimiters that are different from each other and from the escape, puts the
  -- escape before each delimiter and each escape of the text and changes nothing else, so that the
  -- text comes back when each escape is taken away and the byte behind it kept.
  pub unescape-escape_all :
      (str delims : List ℕ)
      → Different delims (λ y. escape == y)
      → (escape_all str delims escape
          ≡ each (escaped escape (special delims (λ y. escape == y))) str)
        × (unescape escape (escape_all str delims escape) ≡ str)
  unfolding escape_all
  unescape-escape_all str delims differ =
      let all : escape_all str delims escape
          ≡ each (escaped escape (special delims (λ y. escape == y))) str =
        ap (escape_delims delims escape)
          (replace_all-each escape (escape ∷ escape ∷ []) str ∙ first-escaped str)
        ∙ escape_delims-each delims (λ y. escape == y) str (same_is escape) differ in
      (
        all,
        ap (unescape escape) all
            ∙ unescape-each (special delims (λ y. escape == y)) str
                (special_escape delims (λ y. escape == y) (same_is escape)),
      )
