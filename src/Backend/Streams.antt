-- ===== src/Backend/Streams.antt =====
-- What SendFile of BackendImpl.cpp reads of a text for one request.
use mathlib.Core.List.{append_assoc}
use andromeda_desktop_client.Common.{
  ℕ, zero, suc, ◌+◌, ◌-◌, ◌*◌, ◌≤◌, ◌<◌, ◌≡◌, refl, sym, ◌∙◌, ap, Bool, true, false, not, ◌&&◌,
  if◌then◌else◌, leb, ◌==◌, List, [], ◌∷◌, ◌++◌, inl, inr, arith, min, length, take, drop,
  Bool-cases, subst, dec_lt, length-append, length-take, length-drop,
}
use andromeda_desktop_client.Backend.Uploads.{
  WriteFunc, from_string, Stream, streamed, exceeded, endless, prepend, part_size, stream,
}

drop_nil : (m : ℕ) → drop {A = ℕ} m [] ≡ []
drop_nil zero = refl
drop_nil (suc m) = refl

drop-drop : (m n : ℕ) (xs : List ℕ) → drop m (drop n xs) ≡ drop (n + m) xs
drop-drop m zero xs = ap (λ t. drop t xs) (omega arith)
drop-drop m (suc n) [] = drop_nil m ∙ sym (drop_nil (suc n + m))
drop-drop m (suc n) (x ∷ xs) = drop-drop m n xs ∙ ap (λ t. drop t (x ∷ xs)) (sym (step n m))
  where
    step : (i j : ℕ) → suc i + j ≡ suc (i + j)
    step i j = omega arith

taken : (k : ℕ) (ys : List ℕ) → take k ys ++ drop (length (take k ys)) ys ≡ ys
taken zero ys = refl
taken (suc k) [] = refl
taken (suc k) (y ∷ ys) = ap (λ t. y ∷ t) (taken k ys)

drop-length-append : (xs ys : List ℕ) → drop (length xs) (xs ++ ys) ≡ ys
drop-length-append [] ys = refl
drop-length-append (x ∷ xs) ys = drop-length-append xs ys

-- The list `xs` goes on with `bs` at `n`.
abbrev pub At : ℕ → List ℕ → List ℕ → Type 0
At n bs xs = bs ++ drop (n + length bs) xs ≡ drop n xs

pub At-take : (n k : ℕ) (xs : List ℕ) → At n (take k (drop n xs)) xs
At-take n k xs =
    ap (λ t. take k (drop n xs) ++ t) (sym (drop-drop (length (take k (drop n xs))) n xs))
    ∙ taken k (drop n xs)

pub At-append :
    (n : ℕ) (bs cs xs : List ℕ) → At n bs xs → At (n + length bs) cs xs → At n (bs ++ cs) xs
At-append n bs cs xs h k =
    append_assoc bs cs (drop (n + length (bs ++ cs)) xs)
    ∙ ap (λ t. bs ++ (cs ++ drop t xs)) (omega (arith, length-append bs cs))
    ∙ ap (λ t. bs ++ t) k
    ∙ h

-- The three ways that one call goes.
module _ (user : WriteFunc) (buflen max_size byte soffset fuel : ℕ) (oneshot cont : Bool) where
  stream_stop :
      (not (max_size == 0) && leb max_size soffset) ≡ true
      → stream user buflen oneshot (suc fuel) max_size byte soffset cont
        ≡ (if oneshot then exceeded else streamed [] cont)
  unfolding stream
  stream_stop e = rw (stream, e) refl

  stream_end :
      (bs : List ℕ)
      → (not (max_size == 0) && leb max_size soffset) ≡ false
      → user (soffset + byte) (part_size user buflen oneshot max_size) ≡ (bs, false)
      → stream user buflen oneshot (suc fuel) max_size byte soffset cont ≡ streamed bs false
  unfolding stream
  stream_end bs e q = rw (stream, e, ap (λ r. r.1) q, ap (λ r. r.0) q) refl

  stream_go :
      (bs : List ℕ)
      → (not (max_size == 0) && leb max_size soffset) ≡ false
      → user (soffset + byte) (part_size user buflen oneshot max_size) ≡ (bs, true)
      → stream user buflen oneshot (suc fuel) max_size byte soffset cont
        ≡ prepend bs (stream user buflen oneshot fuel max_size byte (soffset + length bs) true)
  unfolding stream
  stream_go bs e q = rw (stream, e, ap (λ r. r.1) q, ap (λ r. r.0) q) refl

from_string_end :
    (xs : List ℕ) (soffset buflen : ℕ)
    → length xs ≤ soffset
    → from_string xs soffset buflen ≡ ([], false)
unfolding from_string
from_string_end xs soffset buflen h =
    let e : leb (length xs) soffset ≡ true = ground arith in rw e refl

from_string_go :
    (xs : List ℕ) (soffset buflen : ℕ)
    → soffset < length xs
    → from_string xs soffset buflen ≡ (take buflen (drop soffset xs), true)
unfolding from_string
from_string_go xs soffset buflen h =
    let e : leb (length xs) soffset ≡ false = ground arith in rw e refl

-- What one request reads of the text `xs` from `byte` on, when `soffset` bytes have been read.
module _ (xs : List ℕ) (buflen max_size byte : ℕ) where
  abbrev pub Reads : Bool → ℕ → Stream → Type 0
  Reads oneshot soffset (streamed bs cont) =
      At (byte + soffset) bs xs
      × (byte + soffset + length bs ≤ length xs)
      × (cont ≡ false → byte + soffset + length bs ≡ length xs)
      × (cont ≡ true → (0 < max_size) × (max_size ≤ soffset + length bs) × (oneshot ≡ false))
      × (0 < max_size → soffset < 2 * max_size → soffset + length bs < 2 * max_size)
      × ((0 < max_size → soffset < max_size) → byte + soffset < length xs → 0 < length bs)
  Reads oneshot soffset exceeded = (oneshot ≡ true) × (0 < max_size) × (byte + max_size ≤ length xs)
  Reads oneshot soffset endless = ⊥

  prepend-Reads :
      (oneshot : Bool) (soffset : ℕ) (bs : List ℕ) (st : Stream)
      → At (byte + soffset) bs xs
      → 0 < length bs
      → (0 < max_size → (soffset < max_size) × (length bs ≤ max_size))
      → Reads oneshot (soffset + length bs) st
      → Reads oneshot soffset (prepend bs st)
  prepend-Reads oneshot soffset bs (streamed cs cont) here some_bytes part
        (at, inside, all, more, bound, nonempty) =
      let n = length-append bs cs in
      let next : byte + (soffset + length bs) ≡ byte + soffset + length bs = omega arith in
      (
        At-append (byte + soffset) bs cs xs here (rw⁻¹ next at),
        omega (arith, n, inside),
        λ e. let a = all e in omega (arith, n, a),
        λ e. let (p, q, r) = more e in (p, omega (arith, n, q), r),
        λ p h.
            let (lt, le) = part p in let b = bound p (omega (arith, lt, le)) in omega (arith, n, b),
        λ p h. omega (arith, n, some_bytes),
      )
  prepend-Reads oneshot soffset bs exceeded here some_bytes part h = h
  prepend-Reads oneshot soffset bs endless here some_bytes part h = h

  stop-Reads :
      (oneshot : Bool) (soffset : ℕ)
      → byte + soffset ≤ length xs
      → (not (max_size == 0) && leb max_size soffset) ≡ true
      → Reads oneshot soffset (if oneshot then exceeded else streamed [] true)
  stop-Reads true soffset le e = (refl, ground arith, ground arith)
  stop-Reads false soffset le e = (
    ap (λ t. drop t xs) (omega arith),
    omega (arith, le),
    λ q. absurd (cc),
    λ q. (ground arith, ground arith, refl),
    λ p h. omega (arith, h),
    λ p h. absurd (ground (arith, p)),
  )

  end-Reads :
      (oneshot : Bool) (soffset : ℕ)
      → byte + soffset ≡ length xs
      → Reads oneshot soffset (streamed [] false)
  end-Reads oneshot soffset full = (
    ap (λ t. drop t xs) (omega arith),
    omega (arith, full),
    λ q. omega (arith, full),
    λ q. absurd (cc),
    λ p h. omega (arith, h),
    λ p h. absurd (omega (arith, full, h)),
  )

  -- Reading a text, with a bound on the calls that is above what is left of it.
  pub stream-Reads :
      (oneshot : Bool) (fuel soffset : ℕ)
      → 0 < buflen
      → byte + soffset ≤ length xs
      → length xs < fuel + (byte + soffset)
      → Reads oneshot soffset
          (stream (from_string xs) buflen oneshot fuel max_size byte soffset true)
  stream-Reads oneshot zero soffset pos le enough = absurd (omega (arith, le, enough))
  stream-Reads oneshot (suc fuel) soffset pos le enough =
      elim (Bool-cases (not (max_size == 0) && leb max_size soffset)) [
        | inl e ↦
            subst (Reads oneshot soffset)
              (sym (stream_stop (from_string xs) buflen max_size byte soffset fuel oneshot true e))
              (stop-Reads oneshot soffset le e)
        | inr e ↦ elim (dec_lt (soffset + byte) (length xs)) [
          | no full ↦
              subst (Reads oneshot soffset)
                (sym (
                  stream_end (from_string xs) buflen max_size byte soffset fuel oneshot true [] e
                    (from_string_end xs (soffset + byte) _ (omega (arith, full)))))
                (end-Reads oneshot soffset (omega (arith, full, le)))
          | yes more ↦
              let size = part_size (from_string xs) buflen oneshot max_size in
              let bs = take size (drop (soffset + byte) xs) in
              let n : length bs ≡ min size (length xs - (soffset + byte)) =
                length-take size (drop (soffset + byte) xs)
                ∙ omega (arith, length-drop (soffset + byte) xs) in
              let fits : 0 < size = ground (arith, pos) in
              let swap : soffset + byte ≡ byte + soffset = omega arith in
              subst (Reads oneshot soffset)
                (sym (
                  stream_go (from_string xs) buflen max_size byte soffset fuel oneshot true bs e
                    (from_string_go xs (soffset + byte) size more)))
                (prepend-Reads oneshot soffset bs
                  (stream (from_string xs) buflen oneshot fuel max_size byte (soffset + length bs)
                    true)
                  (subst (λ t. At t bs xs) swap (At-take (soffset + byte) size xs))
                  (omega (arith, n, fits, more)) (λ p. ground (arith, n, e, p))
                  (stream-Reads oneshot fuel (soffset + length bs) pos (omega (arith, n, more))
                    (omega (arith, n, fits, more, enough))))
        ]
      ]
