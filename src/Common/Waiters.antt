-- ===== src/Common/Waiters.antt =====
-- Threads that wait in a queue, for SharedMutex.hpp and Semaphor.hpp: each stands in it once, under
-- an index of its own.
use andromeda_desktop_client.Common.{
  false, true, ◌≢◌, ◌∙◌, ap, ℕ, ◌+◌, ◌<◌, ◌≡◌, refl, Bool, true, false, ◌||◌, ◌==◌, List, [], ◌∷◌,
  ◌++◌, Option, none, some, arith, ℕ_discrete,
}
use mathlib.Core.Path.{fun_ext}
use andromeda_desktop_client.Common.Threads.{put}

abbrev pub contains : ℕ → List ℕ → Bool
contains x [] = false
contains x (y ∷ q) = y == x || contains x q

abbrev pub Distinct : List ℕ → Type 0
Distinct [] = Unit {0}
Distinct (x ∷ q) = (contains x q ≡ false) × Distinct q

abbrev pub is_empty : List ℕ → Bool
is_empty [] = true
is_empty (x ∷ q) = false

abbrev pub is_front : ℕ → List ℕ → Bool
is_front i [] = false
is_front i (x ∷ q) = x == i

abbrev pub pop_front : List ℕ → List ℕ
pop_front [] = []
pop_front (x ∷ q) = q

-- A queue, the next index, and the index that each thread waits under.
pub record Line (n : ℕ) (queue : List ℕ) (index : ℕ) (waits : ℕ → Option ℕ) : Type 0 where
  pub small : (x : ℕ) → contains x queue ≡ true → x < index
  pub distinct : Distinct queue
  pub queued : (i x : ℕ) → waits i ≡ some x → contains x queue ≡ true
  pub alone : (i j x : ℕ) → waits i ≡ some x → waits j ≡ some x → i ≡ j
  pub owned : (x : ℕ) → contains x queue ≡ true → (i : ℕ) × (i < n) × (waits i ≡ some x)

contains-append : (x y : ℕ) (q : List ℕ) → contains x (q ++ y ∷ []) ≡ (contains x q || y == x)
contains-append x y [] = ground arith
contains-append x y (z ∷ q) = ground (arith, contains-append x y q)

Distinct-append : (y : ℕ) (q : List ℕ) → Distinct q → contains y q ≡ false → Distinct (q ++ y ∷ [])
Distinct-append y [] d h = (refl, tt)
Distinct-append y (z ∷ q) d h =
    (ground (arith, contains-append z y q), Distinct-append y q d.1 (ground arith))

module _ {n : ℕ} {queue : List ℕ} {index : ℕ} {waits : ℕ → Option ℕ}
    (l : Line n queue index waits) where
  open l use {small, distinct, queued, alone, owned}

  new_index : contains index queue ≡ false
  new_index = ground (arith, small index)

  -- A new index stands in the queue and is its thread's alone, wherever it is put in.
  join :
      (i : ℕ) (longer : List ℕ)
      → i < n
      → waits i ≡ none
      → Distinct longer
      → ((x : ℕ) → contains x longer ≡ (contains x queue || index == x))
      → Line n longer (index + 1) (put waits i (some index))
  join i longer lt free d c = record {
    small = λ x h. ground (arith, c x, small x);
    distinct = d;
    queued = λ j x h. ground (arith, c x, queued j x);
    alone = λ j k x h g. ground (arith, alone j k x, queued j x, queued k x, small x);
    owned = λ x h. elim (ℕ_discrete index x) [
      | yes e ↦ (i, lt, ground arith)
      | no e ↦ let (j, below, g) = owned x (ground (arith, c x)) in (j, below, ground arith)
    ];
  }

  pub push_back-Line :
      (i : ℕ)
      → i < n
      → waits i ≡ none
      → Line n (queue ++ index ∷ []) (index + 1) (put waits i (some index))
  push_back-Line i lt free =
      join i (queue ++ index ∷ []) lt free (Distinct-append index queue distinct new_index)
        (λ x. contains-append x index queue)

  pub push_front-Line :
      (i : ℕ)
      → i < n
      → waits i ≡ none
      → Line n (index ∷ queue) (index + 1) (put waits i (some index))
  push_front-Line i lt free =
      join i (index ∷ queue) lt free (new_index, distinct) (λ x. ground arith)

pub pop_front-Line :
    {n : ℕ} {x : ℕ} {queue : List ℕ} {index : ℕ} {waits : ℕ → Option ℕ} (i : ℕ)
    → Line n (x ∷ queue) index waits
    → waits i ≡ some x
    → Line n queue index (put waits i none)
pop_front-Line {n} {x} {queue} {index} {waits} i l e = record {
  small = λ y h. ground (arith, l.small y);
  distinct = l.distinct.1;
  queued = λ j y h. ground (arith, l.queued j y, l.alone i j y);
  alone = λ j k y h g. ground (arith, l.alone j k y);
  owned = λ y h.
      let (j, below, g) = l.owned y (ground arith) in (j, below, ground (arith, l.distinct.0));
}

pub put_same {ℓ} : {A : Type ℓ} (f : ℕ → A) (i : ℕ) (a : A) → f i ≡ a → put f i a ≡ f
put_same f i a h =
    fun_ext (λ j. elim (ℕ_discrete j i) [ yes e ↦ ground (arith, ap f e) | no d ↦ ground arith ])

pub put_self {ℓ} : {A : Type ℓ} (f : ℕ → A) (i : ℕ) (a : A) → put f i a i ≡ a
put_self f i a = ground arith

pub pops :
    {n ix : ℕ} (i x : ℕ) (q : List ℕ) (w : ℕ → Option ℕ)
    → is_front x q ≡ true
    → Line n q ix w
    → w i ≡ some x
    → Line n (pop_front q) ix (put w i none)
pops i x [] w h l e = absurd (cc)
pops {n} {ix} i x (y ∷ q) w h l e =
    let same : x ≡ y = ground arith in pop_front-Line {x = y} i l (e ∙ ap (λ z. some z) same)

pub is_front-push :
    (x y z : ℕ) (q : List ℕ) → contains y q ≡ true → is_front z (q ++ x ∷ []) ≡ is_front z q
is_front-push x y z [] h = absurd (cc)
is_front-push x y z (w ∷ q) h = refl

pub is_front-contains : (z : ℕ) (q : List ℕ) → contains z q ≡ false → is_front z q ≡ false
is_front-contains z [] h = refl
is_front-contains z (w ∷ q) h = ground arith

pub contains-is_empty : (y : ℕ) (q : List ℕ) → contains y q ≡ true → is_empty q ≡ false
contains-is_empty y [] h = absurd (cc)
contains-is_empty y (w ∷ q) h = refl

pub contains-pop_front :
    (x y : ℕ) (q : List ℕ)
    → contains y q ≡ true
    → is_front x q ≡ true
    → x ≢ y
    → is_empty (pop_front q) ≡ false
contains-pop_front x y [] h f d = absurd (cc)
contains-pop_front x y (w ∷ q) h f d = contains-is_empty y q (ground arith)

pub front_of :
    (x : ℕ) (q : List ℕ)
    → contains x q ≡ true
    → (y : ℕ) × (is_front y q ≡ true) × (contains y q ≡ true)
front_of x [] h = absurd (cc)
front_of x (y ∷ q) h = (y, ground arith, ground arith)
