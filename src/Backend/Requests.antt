-- ===== src/Backend/Requests.antt =====
-- What the requests of SendFile of BackendImpl.cpp send, and where.
use mathlib.Core.List.{append_assoc, append-nil}
use andromeda_desktop_client.Common.{
  ℕ, zero, suc, ◌+◌, ◌≤◌, ◌<◌, ◌≡◌, refl, sym, ◌∙◌, ap, Bool, true, List, [], ◌∷◌, ◌++◌, arith,
  length, drop, subst, length-append,
}
use andromeda_desktop_client.Backend.Uploads.{
  Request, upload, write_file, Reply, accepted, no_id, too_large, fails, Sent, sent, thrown,
  looping,
}

abbrev pub body : Request → List ℕ
body (upload bs) = bs
body (write_file id offset bs) = bs

abbrev pub bodies : List Request → List ℕ
bodies [] = []
bodies (r ∷ log) = body r ++ bodies log

pub bodies-append :
    (log : List Request) (r : Request) → bodies (log ++ r ∷ []) ≡ bodies log ++ body r
bodies-append [] r = append-nil (body r)
bodies-append (q ∷ log) r =
    ap (λ t. body q ++ t) (bodies-append log r) ∙ sym (append_assoc (body q) (bodies log) (body r))

pub drop_all : (n : ℕ) (xs : List ℕ) → length xs ≤ n → drop n xs ≡ []
drop_all zero [] h = refl
drop_all zero (x ∷ xs) h = absurd (omega arith)
drop_all (suc n) [] h = refl
drop_all (suc n) (x ∷ xs) h = drop_all n xs (omega (arith, h))

-- The runner passes over each stream once, and the server takes every part of at most one byte.
abbrev pub Fair : Request → Reply → Type 0
Fair r (accepted id retries) = retries ≡ 0
Fair r (too_large retries) = (retries ≡ 0) × (1 < length (body r))
Fair r no_id = Unit {0}
Fair r fails = Unit {0}

module _ (offset : ℕ) where
  -- A request for what follows the first `n` bytes.
  abbrev pub Starts : ℕ → Request → Type 0
  Starts n (upload bs) = n ≡ 0
  Starts n (write_file id o bs) = o ≡ offset + n

  abbrev pub Follows : ℕ → List Request → Type 0
  Follows n [] = Unit {0}
  Follows n (r ∷ log) = Starts n r × Follows (n + length (body r)) log

  pub Follows-append :
      (n : ℕ) (log : List Request) (r : Request)
      → Follows n log
      → Starts (n + length (bodies log)) r
      → Follows n (log ++ r ∷ [])
  Follows-append n [] r h s = (subst (λ t. Starts t r) (omega arith) s, tt)
  Follows-append n (q ∷ log) r h s = (
    h.0,
    Follows-append (n + length (body q)) log r h.1
        (subst (λ t. Starts t r) (omega (arith, length-append (body q) (bodies log))) s),
  )

  -- The whole text is sent, or a first part of it.
  abbrev pub Delivered : List ℕ → Bool → Sent → Type 0
  Delivered xs oneshot (sent log max_size) =
      (bodies log ≡ xs) × Follows 0 log × (oneshot ≡ true → length log ≡ 1)
  Delivered xs oneshot (thrown e log max_size) =
      ((rest : List ℕ) × (bodies log ++ rest ≡ xs)) × Follows 0 log
  Delivered xs oneshot looping = ⊥
