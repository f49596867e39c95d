-- ===== src/Backend/HttpRunner.antt =====
-- HTTPRunner.cpp of src/lib/andromeda/backend: requests that are tried again, and what a response
-- comes to. The HTTP library is outside: what each attempt of a request gives is a parameter.
use andromeda_desktop_client.Common.{
  ℕ, zero, suc, ◌+◌, Bool, true, false, not, ◌&&◌, ◌||◌, if◌then◌else◌, ◌==◌, List, [], ◌∷◌, ◌++◌,
  Option, none, some, take,
}
use andromeda_desktop_client.StringUtil.{find, split, starts_with}

pub record Response : Type 0 where
  pub status : ℕ
  pub location : List ℕ
  pub location_header : Option (List ℕ)
  pub has_json : Bool
  pub body : List ℕ

-- httplib::Result: no response tells whether it is an error of the connection. A request that is
-- cut off has no response in the end, but its status and headers came before the rest failed.
pub data Result : Type 0 where
  response : Response → Result
  no_response : Bool → Result
  cut_off : Response → Bool → Result

pub data Error : Type 0 where
  connection library : Error
  endpoint : ℕ → Error
  redirected : Option (List ℕ) → Error
  input_size : Error

pub record Options : Type 0 where
  pub max_retries : ℕ
  pub can_retry : Bool
  pub follow_redirects : Bool

pub record HttpRunner : Type 0 where
  pub failure_state : Bool
  pub proto_host : List ℕ
  pub base_url : List ℕ

abbrev scheme : List ℕ
scheme = b':' ∷ b'/' ∷ b'/' ∷ []

abbrev pub is_found : Option ℕ → Bool
is_found none = false
is_found (some n) = true

unfoldable pub parse_url : List ℕ → List ℕ × List ℕ
unfolding find split starts_with
parse_url url =
    let full =
      if is_found (find scheme url) then url else b'h' ∷ b't' ∷ b't' ∷ b'p' ∷ (scheme ++ url) in
    let pair = split full (b'/' ∷ []) 2 false in
    (pair.0, if starts_with pair.1 (b'/' ∷ []) then pair.1 else b'/' ∷ pair.1)

abbrev pub up_to : List ℕ → Option ℕ → List ℕ
up_to url none = url
up_to url (some n) = take n url

-- location.erase(paramsPos).
unfoldable pub without_params : List ℕ → List ℕ
unfolding find
without_params url = up_to url (find (b'?' ∷ []) url)

unfoldable pub register_redirect : List ℕ → HttpRunner → HttpRunner
unfolding parse_url without_params
register_redirect location r =
    let pair = parse_url location in
    record r { proto_host = pair.0; base_url = without_params pair.1 }

abbrev pub redirect_to : Option (List ℕ) → Option (List ℕ)
redirect_to none = none
redirect_to (some url) = some (without_params url)

-- HandleResponse: what it returns or throws; `again` is respData.doRetry.
pub data Handled : Type 0 where
  again : Handled
  answer : List ℕ → Bool → Handled
  throws : Error → Handled

abbrev pub want_retry : Response → Bool
want_retry r = r.status == 500 || r.status == 503

abbrev pub by_status : Response → Handled
by_status r =
    if r.status == 200
    then answer r.body r.has_json
    else if r.status == 301 || r.status == 302
    then throws (redirected (redirect_to r.location_header))
    else if r.status == 413
    then throws input_size
    else throws (endpoint r.status)

abbrev pub is_empty_text : List ℕ → Bool
is_empty_text [] = true
is_empty_text (x ∷ s) = false

unfoldable pub handle_response : Options → Bool → Response → HttpRunner → Handled × HttpRunner
unfolding register_redirect
handle_response o can_retry r s =
    let known = if want_retry r then s else record s { failure_state = false } in
    if can_retry && want_retry r then (again, s) else (
      by_status r,
      if o.follow_redirects && not (is_empty_text r.location)
          then register_redirect r.location known
          else known,
    )

-- HandleNonResponse where it throws.
abbrev pub non_response : Result → Error
non_response (no_response true) = connection
non_response (no_response false) = library
non_response (cut_off r true) = connection
non_response (cut_off r false) = library
non_response (response r) = endpoint r.status

-- A request ends with a body or an exception, after a number of attempts.
pub record Ended : Type 0 where
  pub outcome : Handled
  pub runner : HttpRunner
  pub attempts : ℕ

module _ (o : Options) (attempt_result : ℕ → Result) where
  -- An attempt: it ends the request, or HandleNonResponse lets it be tried again.
  abbrev pub begin : ℕ → HttpRunner → HttpRunner
  begin attempt s = if attempt == o.max_retries then record s { failure_state = true } else s

  abbrev pub may_retry : HttpRunner → Bool
  may_retry s = o.can_retry && not s.failure_state

  abbrev pub unanswered : (HttpRunner → Ended) → ℕ → Result → HttpRunner → Ended
  unanswered next attempt result s =
      if may_retry s
      then next s
      else record { outcome = throws (non_response result); runner = s; attempts = attempt + 1 }

  abbrev pub conclude : (HttpRunner → Ended) → ℕ → Result → Handled × HttpRunner → Ended
  conclude next attempt result (again, s) = unanswered next attempt result s
  conclude next attempt result (answer body has_json, s) = record {
    outcome = answer body has_json;
    runner = s;
    attempts = attempt + 1;
  }
  conclude next attempt result (throws e, s) = record {
    outcome = throws e;
    runner = s;
    attempts = attempt + 1;
  }

  -- respFunc has handled the response, with the flag as it was before; there is no result.
  abbrev pub interrupted : (HttpRunner → Ended) → ℕ → Result → Bool → Handled × HttpRunner → Ended
  interrupted next attempt result can (throws e, s) = record {
    outcome = throws e;
    runner = s;
    attempts = attempt + 1;
  }
  interrupted next attempt result can (h, s) =
      if can
      then next s
      else record { outcome = throws (non_response result); runner = s; attempts = attempt + 1 }

  -- DoRequestsAuto handles a response with a HandleResponseData of its own, which lets it be tried
  -- again, DoRequestsCustom with the one that its caller shares.
  unfoldable pub attempt_auto : (HttpRunner → Ended) → ℕ → Result → HttpRunner → Ended
  unfolding handle_response
  attempt_auto next attempt (no_response c) s = unanswered next attempt (no_response c) s
  attempt_auto next attempt (cut_off r c) s = unanswered next attempt (cut_off r c) s
  attempt_auto next attempt (response r) s =
      conclude next attempt (response r) (handle_response o true r s)

  unfoldable pub attempt_custom : (HttpRunner → Ended) → ℕ → Result → HttpRunner → Ended
  unfolding handle_response
  attempt_custom next attempt (no_response c) s = unanswered next attempt (no_response c) s
  attempt_custom next attempt (cut_off r c) s =
      interrupted next attempt (cut_off r c) (may_retry s) (handle_response o (may_retry s) r s)
  attempt_custom next attempt (response r) s =
      conclude next attempt (response r) (handle_response o (may_retry s) r s)

  unfoldable pub do_requests_auto : ℕ → ℕ → HttpRunner → Ended
  unfolding attempt_auto
  do_requests_auto zero attempt s = record { outcome = again; runner = s; attempts = attempt }
  do_requests_auto (suc fuel) attempt s =
      attempt_auto (do_requests_auto fuel (attempt + 1)) attempt (attempt_result attempt)
        (begin attempt s)

  unfoldable pub do_requests_custom : ℕ → ℕ → HttpRunner → Ended
  unfolding attempt_custom
  do_requests_custom zero attempt s = record { outcome = again; runner = s; attempts = attempt }
  do_requests_custom (suc fuel) attempt s =
      attempt_custom (do_requests_custom fuel (attempt + 1)) attempt (attempt_result attempt)
        (begin attempt s)
