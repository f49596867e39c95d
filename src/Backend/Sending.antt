-- ===== src/Backend/Sending.antt =====
-- SendFile of BackendImpl.cpp sends a text as a whole, each part at its place.
use andromeda_desktop_client.Common.{
  ℕ, zero, suc, ◌+◌, ◌*◌, ◌<◌, refl, Bool, true, List, [], arith, length, subst,
}
use andromeda_desktop_client.Backend.Uploads.{
  from_string, write_size, Request, Reply, accepted, no_id, too_large, fails, Stream, streamed,
  exceeded, endless, Sent, stream, round, send_file,
}
use andromeda_desktop_client.Backend.Streams.{Reads, stream-Reads}
use andromeda_desktop_client.Backend.Requests.{Fair, Delivered}
use andromeda_desktop_client.Backend.Rounds.{
  Sending, next_request, rank, DeliversBelow, Goal, Delivered-part, accepted-Delivered,
  too_large-Delivered, no_id-Delivered, fails-Delivered, body-request,
}

module _ (has_upload : Bool) (offset : ℕ) (xs : List ℕ) (buflen : ℕ) (oneshot : Bool)
    (server : ℕ → Request → Reply) where
  round-Delivered :
      (next : List Request → ℕ → ℕ → ℕ → Sent) (k : ℕ) (log : List Request) (max_size id byte : ℕ)
      (st : Stream)
      → ((r : Request) → Fair r (server k r))
      → DeliversBelow has_upload offset xs buflen oneshot server next
          (rank has_upload offset xs buflen oneshot server max_size byte)
      → Sending has_upload offset xs oneshot log byte
      → Reads xs buflen max_size byte oneshot 0 st
      → Delivered offset xs oneshot (
          round
            (from_string xs)
            buflen
            oneshot
            has_upload
            offset
            server
            k
            next
            log
            max_size
            id
            byte
            st)
  round-Delivered next k log max_size id byte endless fair ih s h = absurd h
  round-Delivered next k log max_size id byte exceeded fair ih s h =
      Delivered-part has_upload offset xs buflen oneshot server write_size max_size s
  round-Delivered next k log max_size id byte (streamed bs cont) fair ih s h =
      go (server k (next_request has_upload offset xs buflen oneshot server id byte bs))
        (fair (next_request has_upload offset xs buflen oneshot server id byte bs))
    where
      go :
          (reply : Reply)
          → Fair (next_request has_upload offset xs buflen oneshot server id byte bs) reply
          → Goal has_upload offset xs buflen oneshot server next log max_size id byte bs cont reply
      go (accepted new_id retries) f =
          accepted-Delivered has_upload offset xs buflen oneshot server next log max_size id byte bs
            cont new_id retries ih s h f
      go (too_large retries) f =
          too_large-Delivered has_upload offset xs buflen oneshot server next log max_size id byte
            bs cont retries ih s h f.0
            (subst (λ t. 1 < length t)
              (body-request has_upload offset xs buflen oneshot server id byte bs) f.1)
      go no_id f =
          no_id-Delivered has_upload offset xs buflen oneshot server next log max_size id byte bs
            cont s h
      go fails f =
          fails-Delivered has_upload offset xs buflen oneshot server next log max_size id byte bs
            cont s

  send_file-Delivered :
      (fuel depth k : ℕ)
      → ((k : ℕ) (r : Request) → Fair r (server k r))
      → 0 < buflen
      → length xs < depth
      → (log : List Request) (max_size id byte : ℕ) → Sending has_upload offset xs oneshot log byte
      → rank has_upload offset xs buflen oneshot server max_size byte < fuel
      → Delivered offset xs oneshot (
          send_file
            (from_string xs)
            buflen
            oneshot
            has_upload
            offset
            server
            fuel
            depth
            k
            log
            max_size
            id
            byte)
  unfolding send_file
  send_file-Delivered zero depth k fair pos deep log max_size id byte s enough =
      absurd (omega (arith, enough))
  send_file-Delivered (suc fuel) depth k fair pos deep log max_size id byte s enough =
      round-Delivered
        (send_file (from_string xs) buflen oneshot has_upload offset server fuel depth (suc k)) k
        log max_size id byte (stream (from_string xs) buflen oneshot depth max_size byte 0 true)
        (fair k)
        (λ log' m' id' byte' s' lt.
          send_file-Delivered fuel depth (suc k) fair pos deep log' m' id' byte' s'
            (omega (arith, lt, enough)))
        s
        (stream-Reads xs buflen max_size byte oneshot depth 0 pos (omega (arith, s.inside))
          (omega (arith, deep)))

  -- SendFile of a text, whatever the server answers, if it never refuses a part of at most one byte
  -- as too large and the runner passes over each stream once: it ends, within a bound on its
  -- rounds. Without an exception all of the text was sent, and by one request where that was asked
  -- for; with one, a first part of it. Each part was sent to its place behind those before it, and
  -- only the first one as a new file.
  pub send_file_lem :
      (fuel depth id max_size : ℕ)
      → ((k : ℕ) (r : Request) → Fair r (server k r))
      → 0 < buflen
      → length xs < depth
      → 2 * length xs + 1 < fuel
      → Delivered offset xs oneshot (
          send_file
            (from_string xs)
            buflen
            oneshot
            has_upload
            offset
            server
            fuel
            depth
            0
            []
            max_size
            id
            0)
  send_file_lem fuel depth id max_size fair pos deep enough =
      send_file-Delivered fuel depth 0 fair pos deep [] max_size id 0
        (record { done = refl; inside = omega arith; count = refl; follows = tt; once = λ e. refl })
        (small max_size)
    where
      small : (m : ℕ) → rank has_upload offset xs buflen oneshot server m 0 < fuel
      small m = unfold rank in ground (arith, enough)
