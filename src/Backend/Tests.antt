-- ===== src/Backend/Tests.antt =====
-- Tests of the models of BackendImpl.cpp and HTTPRunner.cpp, and their theorems at concrete requests.
use andromeda_desktop_client.Common.{
  ℕ, zero, suc, ◌<◌, ◌≡◌, ◌≢◌, refl, true, false, if◌then◌else◌, ltb, List, [], ◌∷◌, none, inl, inr,
  arith, length, Bool-cases,
}
use andromeda_desktop_client.Backend.Uploads.{
  from_string, Request, upload, write_file, Reply, accepted, too_large, sent, looping, stream,
  answered, send_file,
}
use andromeda_desktop_client.Backend.Requests.{body, Fair, Delivered}
use andromeda_desktop_client.Backend.Sending.{send_file_lem}
use andromeda_desktop_client.Backend.Defects.{send_file-looping}
use andromeda_desktop_client.Backend.HttpRunner.{
  Response, Result, response, no_response, Options, HttpRunner, answer, handle_response,
  do_requests_auto, do_requests_custom,
}
use andromeda_desktop_client.Backend.Attempts.{Tried}
use andromeda_desktop_client.Backend.Retries.{whole, do_requests-Tried}
use andromeda_desktop_client.Backend.Downloads.{read_file, stream_out}
use andromeda_desktop_client.Backend.Fetches.{read_file-Fetched, stream_out-Fetched}
use andromeda_desktop_client.PageBackend.{fetch_pages, fetch_start, read_size}
use andromeda_desktop_client.PageBackend.Fetching.{Fetched}

abbrev text : List ℕ
text = 1 ∷ 2 ∷ 3 ∷ 4 ∷ 5 ∷ 6 ∷ []

-- A server that takes no more than four bytes.
abbrev four_bytes : ℕ → Request → Reply
four_bytes k r = if ltb 4 (length (body r)) then too_large 0 else accepted 7 0

sent_in_halves :
    send_file (from_string text) 100 false true 0 four_bytes 20 10 0 [] 0 0 0
    ≡ sent (upload (1 ∷ 2 ∷ 3 ∷ []) ∷ write_file 7 3 (4 ∷ 5 ∷ 6 ∷ []) ∷ write_file 7 6 [] ∷ []) 3
unfolding send_file answered stream from_string
sent_in_halves = refl

four_bytes-Fair : (k : ℕ) (r : Request) → Fair r (four_bytes k r)
four_bytes-Fair k r = elim (Bool-cases (ltb 4 (length (body r)))) [
  | inl e ↦ rw e (refl, ground arith)
  | inr e ↦ rw e refl
]

send_file_lem_example :
    Delivered 0 text false
      (send_file (from_string text) 100 false true 0 four_bytes 14 7 0 [] 0 0 0)
send_file_lem_example =
    send_file_lem true 0 text 100 false four_bytes 14 7 0 0 four_bytes-Fair (omega arith)
      (omega arith) (omega arith)

send_file-looping_example :
    send_file
      (from_string (9 ∷ []))
      100
      false
      true
      0
      (λ (j : ℕ) (r : Request). too_large 0)
      50
      2
      0
      []
      0
      0
      0
    ≡ looping
send_file-looping_example =
    send_file-looping true 0 (9 ∷ []) 100 50 2 0 0 (omega arith) (omega arith) (omega arith)

abbrev retries : Options
retries = record { max_retries = 2; can_retry = true; follow_redirects = true }

abbrev runner : HttpRunner
runner = record { failure_state = false; proto_host = b'h' ∷ []; base_url = b'/' ∷ [] }

abbrev with_status : ℕ → Response
with_status n = record {
  status = n;
  location = [];
  location_header = none;
  has_json = true;
  body = b'x' ∷ [];
}

-- The first attempt has no response, the second is unavailable, the third is answered.
abbrev third_time : ℕ → Result
third_time zero = no_response true
third_time (suc zero) = response (with_status 503)
third_time (suc (suc k)) = response (with_status 200)

answered_third :
    do_requests_auto retries third_time 3 0 runner
    ≡ record { outcome = answer (b'x' ∷ []) true; runner = runner; attempts = 3 }
unfolding do_requests_auto handle_response
answered_third = refl

do_requests-Tried_example :
    Tried retries
      (whole retries third_time)
      0
      runner
      (do_requests_auto retries third_time 3 0 runner)
    × Tried retries third_time 0 runner (do_requests_custom retries third_time 3 0 runner)
do_requests-Tried_example = do_requests-Tried retries third_time runner

some_bytes : 0 < 6
some_bytes = omega arith

-- Pages of four bytes of a file of six, read in two pieces.
abbrev two_pieces : List (ℕ × List ℕ)
two_pieces = (0, 1 ∷ 2 ∷ 3 ∷ []) ∷ (3, 4 ∷ 5 ∷ 6 ∷ []) ∷ []

read_file-Fetched_example :
    ((read_file 6 two_pieces).complete ≡ true
      → (length text ≡ 6)
        × Fetched 4 6 0 2
            (omega arith)
            (omega arith)
            (omega arith)
            text
            (fetch_pages 4 6 0 (read_file 6 two_pieces).handed (fetch_start 4 6 0)))
    × ((read_file 6 two_pieces).complete ≡ false → length text ≢ 6)
unfolding read_size
read_file-Fetched_example =
    read_file-Fetched 4 6 0 2 (omega arith) (omega arith) (omega arith) two_pieces some_bytes
      (refl, (refl, tt))

stream_out-Fetched_example : Fetched 4 6 0 2 (omega arith) (omega arith) (omega arith) text (
    fetch_pages 4 6 0
      (read_file 6 (
        stream_out retries true runner
          (with_status 503)
          ((1 ∷ 2 ∷ 3 ∷ []) ∷ (4 ∷ 5 ∷ 6 ∷ []) ∷ []))).handed
      (fetch_start 4 6 0))
unfolding read_size
stream_out-Fetched_example =
    stream_out-Fetched 4 6 0 2 (omega arith) (omega arith) (omega arith) retries runner
      (with_status 503) ((1 ∷ 2 ∷ 3 ∷ []) ∷ (4 ∷ 5 ∷ 6 ∷ []) ∷ []) refl some_bytes refl
