-- ===== src/Backend/Defects.antt =====
-- Where SendFile of BackendImpl.cpp does not do what it is meant to.
use andromeda_desktop_client.Common.{
  ℕ, zero, suc, ◌/◌, ◌≤◌, ◌<◌, ◌≡◌, refl, ◌∙◌, ap, Bool, true, false, List, [], arith, length,
}
use andromeda_desktop_client.Backend.Uploads.{
  from_string, Request, Reply, too_large, Stream, streamed, exceeded, endless, Sent, looping,
  stream, answered, round, send_file,
}
use andromeda_desktop_client.Backend.Streams.{Reads, stream-Reads}

module _ (has_upload : Bool) (offset : ℕ) (xs : List ℕ) (buflen : ℕ) where
  -- A server that refuses every request as too large, and a text of at most one byte: without a
  -- limit on the size, SendFile tries again without end.
  pub send_file-looping :
      (fuel depth k id : ℕ)
      → 0 < buflen
      → length xs < depth
      → length xs ≤ 1
      → send_file
          (from_string xs)
          buflen
          false
          has_upload
          offset
          (λ (j : ℕ) (r : Request). too_large 0)
          fuel
          depth
          k
          []
          0
          id
          0
        ≡ looping
  unfolding send_file answered
  send_file-looping zero depth k id pos deep short = refl
  send_file-looping (suc fuel) depth k id pos deep short =
      go (stream (from_string xs) buflen false depth 0 0 0 true)
        (stream-Reads xs buflen 0 0 false depth 0 pos (omega arith) (omega (arith, deep)))
        (λ m e.
          ap
            (λ t.
              send_file (from_string xs) buflen false has_upload offset
                (λ (j : ℕ) (r : Request). too_large 0) fuel depth (suc k) [] t id 0)
            e
          ∙ send_file-looping fuel depth (suc k) id pos deep short)
    where
      server : ℕ → Request → Reply
      server j r = too_large 0

      next : List Request → ℕ → ℕ → ℕ → Sent
      next = send_file (from_string xs) buflen false has_upload offset server fuel depth (suc k)

      go :
          (st : Stream)
          → Reads xs buflen 0 0 false 0 st
          → ((m : ℕ) → m ≡ 0 → next [] m id 0 ≡ looping)
          → round (from_string xs) buflen false has_upload offset server k next [] 0 id 0 st
            ≡ looping
      go endless h ih = refl
      go exceeded (o, p, q) ih = absurd (omega (arith, p))
      go (streamed bs cont) (here, inside, all, more, bound, nonempty) ih =
          ih (length bs / 2) (omega (arith, inside, short))
