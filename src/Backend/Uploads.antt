-- ===== src/Backend/Uploads.antt =====
-- SendFile of src/lib/andromeda/backend/BackendImpl.cpp: a stream is sent in one request, or in
-- chunks of the size that the server takes. FromString of RunnerInput.cpp is a stream.
use andromeda_desktop_client.Common.{
  ℕ, zero, suc, ◌+◌, ◌/◌, Bool, true, false, not, ◌&&◌, if◌then◌else◌, ltb, leb, ◌==◌, List, [],
  ◌∷◌, ◌++◌, min, length, take, drop,
}

-- A WriteFunc: from the offset and the size of the buffer, the bytes and whether there may be more.
abbrev pub WriteFunc : Type 0
WriteFunc = ℕ → ℕ → List ℕ × Bool

unfoldable pub from_string : List ℕ → WriteFunc
from_string bs soffset buflen =
    if leb (length bs) soffset then ([], false) else (take buflen (drop soffset bs), true)

pub data Error : Type 0 where
  write_size input_size json refused : Error

-- One request: to upload a new file, or to write at an offset of a file.
pub data Request : Type 0 where
  upload : List ℕ → Request
  write_file : ℕ → ℕ → List ℕ → Request

-- The answer to a request, after `retries` more passes over the stream by the runner, each of the
-- whole stream.
pub data Reply : Type 0 where
  accepted : ℕ → ℕ → Reply
  no_id : Reply
  too_large : ℕ → Reply
  fails : Reply

-- streamSize behind these more passes: each pass adds the bytes that it reads to it.
abbrev pub stream_size : ℕ → List ℕ → ℕ
stream_size zero bs = length bs
stream_size (suc retries) bs = stream_size retries bs + length bs

-- What reading the stream for one request comes to: the bytes, and streamCont.
pub data Stream : Type 0 where
  streamed : List ℕ → Bool → Stream
  exceeded : Stream
  endless : Stream

abbrev pub prepend : List ℕ → Stream → Stream
prepend bs (streamed cs c) = streamed (bs ++ cs) c
prepend bs s = s

-- The requests that the server has accepted, GetUploadMaxBytes, and how it ended.
pub data Sent : Type 0 where
  sent : List Request → ℕ → Sent
  thrown : Error → List Request → ℕ → Sent
  looping : Sent

module _ (user : WriteFunc) (buflen : ℕ) (oneshot : Bool) where
  abbrev pub part_size : ℕ → ℕ
  part_size max_size = if max_size == 0 then buflen else min buflen max_size

  -- The runner calls writeFunc with growing offsets until it returns false.
  unfoldable pub stream : ℕ → ℕ → ℕ → ℕ → Bool → Stream
  stream zero max_size byte soffset cont = endless
  stream (suc fuel) max_size byte soffset cont =
      elim (not (max_size == 0) && leb max_size soffset) [
        | true ↦ if oneshot then exceeded else streamed [] cont
        | false ↦
            let r = user (soffset + byte) (part_size max_size) in
            elim r.1 [
              | false ↦ streamed r.0 false
              | true ↦ prepend r.0 (stream fuel max_size byte (soffset + length r.0) true)
            ]
      ]

  module _ (has_upload : Bool) (offset : ℕ) (server : ℕ → Request → Reply) where
    abbrev pub request : ℕ → ℕ → List ℕ → Request
    request id byte bs =
        if byte == 0 && has_upload then upload bs else write_file id (offset + byte) bs

    -- The rest of a round of SendFile, with what follows the round. streamSize counts all
    -- passes of the runner over the stream.
    unfoldable pub answered :
        (List Request → ℕ → ℕ → ℕ → Sent) → List Request → ℕ → ℕ → ℕ → List ℕ → Bool → Reply → Sent
    answered next log max_size id byte bs cont (accepted new_id retries) =
        if cont
        then next (log ++ request id byte bs ∷ []) max_size new_id (byte + stream_size retries bs)
        else sent (log ++ request id byte bs ∷ []) max_size
    answered next log max_size id byte bs cont no_id =
        thrown json (log ++ request id byte bs ∷ []) max_size
    answered next log max_size id byte bs cont (too_large retries) =
        let adjusted = stream_size retries bs / 2 in
        if not (max_size == 0) && ltb max_size 4096
        then thrown input_size log max_size
        else if oneshot
        then thrown write_size log adjusted
        else next log adjusted id byte
    answered next log max_size id byte bs cont fails = thrown refused log max_size

    abbrev pub round :
        ℕ → (List Request → ℕ → ℕ → ℕ → Sent) → List Request → ℕ → ℕ → ℕ → Stream → Sent
    round k next log max_size id byte endless = looping
    round k next log max_size id byte exceeded = thrown write_size log max_size
    round k next log max_size id byte (streamed bs cont) =
        answered next log max_size id byte bs cont (server k (request id byte bs))

    -- SendFile from its round `k` on: the requests so far, mUploadMaxBytes, id and byte.
    unfoldable pub send_file : ℕ → ℕ → ℕ → List Request → ℕ → ℕ → ℕ → Sent
    unfolding stream answered
    send_file zero depth k log max_size id byte = looping
    send_file (suc fuel) depth k log max_size id byte =
        round k (send_file fuel depth (suc k)) log max_size id byte
          (stream depth max_size byte 0 true)
