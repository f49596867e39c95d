-- ===== src/Backend/Downloads.antt =====
-- ReadFile of BackendImpl.cpp with a stream, and RunAction_StreamOut of HTTPRunner.cpp below it.
use andromeda_desktop_client.Common.{
  ℕ, ◌+◌, Bool, true, false, if◌then◌else◌, ltb, leb, ◌==◌, List, [], ◌∷◌, max, length,
}
use andromeda_desktop_client.Backend.HttpRunner.{
  Response, Options, HttpRunner, Handled, throws, handle_response,
}

-- What the stream function of the caller has been given, and whether ReadFile returned or threw a
-- ReadSizeException.
pub record Download : Type 0 where
  pub handed : List (ℕ × List ℕ)
  pub complete : Bool

abbrev pub handed_first : ℕ × List ℕ → Download → Download
handed_first piece d = record d { handed = piece ∷ d.handed }

-- The pieces of a response, with `read` as it is so far.
unfoldable pub receive : ℕ → ℕ → List (ℕ × List ℕ) → Download
receive len read [] = record { handed = []; complete = leb len read }
receive len read ((offset, bytes) ∷ pieces) =
    let rest = receive len (max read (offset + length bytes)) pieces in
    if ltb len (offset + length bytes)
    then record { handed = []; complete = false }
    else handed_first (offset, bytes) rest

unfoldable pub read_file : ℕ → List (ℕ × List ℕ) → Download
unfolding receive
read_file len pieces =
    let asked = receive len 0 pieces in
    if len == 0 then record { handed = []; complete = true } else asked

-- recvFunc: each part of a body goes to the caller at the sum of those before it.
unfoldable pub placed : ℕ → List (List ℕ) → List (ℕ × List ℕ)
placed offset [] = []
placed offset (bytes ∷ parts) = (offset, bytes) ∷ placed (offset + length bytes) parts

abbrev pub parts_after : Handled → List (List ℕ) → List (ℕ × List ℕ)
parts_after (throws e) parts = []
parts_after h parts = placed 0 parts

-- An attempt with a response: respFunc handles it first, and lets the body come unless it throws.
unfoldable pub stream_out :
    Options → Bool → HttpRunner → Response → List (List ℕ) → List (ℕ × List ℕ)
unfolding handle_response placed
stream_out o can_retry s r parts = parts_after (handle_response o can_retry r s).0 parts
