-- ===== src/Common/Threads.antt =====
-- Threads by their number: one of them moved, all of them moved, and how many stand somewhere.
use Prim.Native.Nat.{ℕ, zero, suc, ◌+◌, ◌≤◌, ◌<◌}
use mathlib.Core.Bool.{Bool, true, false}
use mathlib.Core.Logic.{◌≢◌}
use mathlib.Core.Path.{◌≡◌, refl, ap, fun_ext}
use native.Mathlib.Decide.{ℕ_discrete}
use native.Mathlib.Omega.{arith}
use andromeda_desktop_client.Common.Tests.{if◌then◌else◌, ◌==◌}

abbrev pub put {ℓ} : {A : Type ℓ} → (ℕ → A) → ℕ → A → ℕ → A
put f i a j = if j == i then a else f j

pub put-put {ℓ} : {A : Type ℓ} (f : ℕ → A) (i : ℕ) (a b : A) → put (put f i a) i b ≡ put f i b
put-put f i a b = fun_ext (λ j. ground arith)

abbrev pub one_if : Bool → ℕ
one_if true = 1
one_if false = 0

module _ {ℓ} {A : Type ℓ} (p : A → Bool) where
  pub count : ℕ → (ℕ → A) → ℕ
  count zero f = 0
  count (suc n) f = count n f + one_if (p (f n))

  count-put_above : (n i : ℕ) (f : ℕ → A) (a : A) → n ≤ i → count n (put f i a) ≡ count n f
  unfolding count
  count-put_above zero i f a h = refl
  count-put_above (suc n) i f a h = ground (arith, count-put_above n i f a)

  pub count-put :
      (n i : ℕ) (f : ℕ → A) (a : A)
      → i < n
      → count n (put f i a) + one_if (p (f i)) ≡ count n f + one_if (p a)
  unfolding count
  count-put zero i f a h = absurd (omega arith)
  count-put (suc n) i f a h = elim (ℕ_discrete i n) [
    | yes e ↦ ground (arith, count-put_above n i f a)
    | no d ↦ ground (arith, count-put n i f a (omega (arith, h, d)))
  ]

  -- A thread that stands there is counted, and two are counted twice.
  pub count_pos : (n i : ℕ) (f : ℕ → A) → i < n → p (f i) ≡ true → 0 < count n f
  unfolding count
  count_pos zero i f h e = absurd (omega arith)
  count_pos (suc n) i f h e = elim (ℕ_discrete i n) [
    | yes q ↦ ground arith
    | no d ↦ omega (arith, count_pos n i f (omega (arith, h, d)) e)
  ]

  pub count_two :
      (n i j : ℕ) (f : ℕ → A)
      → i < n
      → j < n
      → i ≢ j
      → p (f i) ≡ true
      → p (f j) ≡ true
      → 2 ≤ count n f
  unfolding count
  count_two zero i j f h k d e g = absurd (omega arith)
  count_two (suc n) i j f h k d e g = elim (ℕ_discrete i n) [
    | yes q ↦ ground (arith, count_pos n j f (omega (arith, k, d, q)) g)
    | no r ↦ elim (ℕ_discrete j n) [
      | yes q ↦ ground (arith, count_pos n i f (omega (arith, h, r)) e)
      | no t ↦ omega (arith, count_two n i j f (omega (arith, h, r)) (omega (arith, k, t)) d e g)
    ]
  ]

  pub count_same : (n : ℕ) (f g : ℕ → A) → ((i : ℕ) → p (f i) ≡ p (g i)) → count n f ≡ count n g
  unfolding count
  count_same zero f g h = refl
  count_same (suc n) f g h = ground (arith, h n, count_same n f g h)

  pub count_none : (n : ℕ) (a : A) → p a ≡ false → count n (λ i. a) ≡ 0
  unfolding count
  count_none zero a h = refl
  count_none (suc n) a h = omega (arith, count_none n a h, ap one_if h)
