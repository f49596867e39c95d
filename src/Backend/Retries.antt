-- ===== src/Backend/Retries.antt =====
-- How often HTTPRunner.cpp tries a request, and what the request comes to.
use andromeda_desktop_client.Common.{
  ℕ, zero, suc, ◌+◌, ◌≤◌, ◌<◌, ◌≡◌, refl, sym, ◌∙◌, ap, Bool, true, false, ◌&&◌, ◌||◌, ◌==◌,
  if◌then◌else◌, inl, inr, arith, Bool-cases, subst,
}
use andromeda_desktop_client.Backend.HttpRunner.{
  Response, Result, response, no_response, cut_off, Options, HttpRunner, throws, want_retry,
  by_status, non_response, handle_response, Ended, begin, may_retry, unanswered, conclude,
  interrupted, attempt_auto, attempt_custom, do_requests_auto, do_requests_custom,
}
use andromeda_desktop_client.Backend.Attempts.{
  unstreamed, passes, remembered, final, response-final, non_response-cut, by_status-again,
  no_retry, Tried, retry_lem, stop_lem, Next, unanswered-Tried, concluded, interrupted-throws,
  handled_stop, handled_again,
}

module _ (o : Options) (attempt_result : ℕ → Result) where
  stopped-Tried :
      (next : HttpRunner → Ended) (can : Bool) (first : ℕ) (r : Response) (s : HttpRunner)
      → first ≤ o.max_retries
      → attempt_result first ≡ response r
      → (can && want_retry r) ≡ false
      → (want_retry r ≡ true
          → o.can_retry ≡ true
          → (begin o attempt_result first s).failure_state ≡ true)
      → Tried o attempt_result first s (
          conclude o attempt_result next first
            (response r)
            (handle_response o can r (begin o attempt_result first s)))
  stopped-Tried next can first r s le e stop fails =
      let (q, is, state) =
        handled_stop o attempt_result can r (begin o attempt_result first s) stop in
      subst (Tried o attempt_result first s)
        (sym (
          ap (conclude o attempt_result next first (response r)) is
          ∙ concluded o attempt_result next first (response r) (by_status r) q (by_status-again r)))
        (stop_lem o attempt_result first s q (by_status r) le (ap final (sym e))
          (λ can_retry. state ∙ by_case (want_retry r) refl can_retry ∙ ap remembered (sym e)))
    where
      by_case :
          (w : Bool)
          → want_retry r ≡ w
          → o.can_retry ≡ true
          → (if w then (begin o attempt_result first s).failure_state else false) ≡ w
      by_case true w can_retry = fails w can_retry
      by_case false w can_retry = refl

  again_as :
      (next : HttpRunner → Ended) (can : Bool) (first : ℕ) (s : HttpRunner) (r : Response)
      → first ≤ o.max_retries
      → attempt_result first ≡ response r
      → want_retry r ≡ true
      → (can && want_retry r) ≡ true
      → Next o attempt_result first s next
      → Tried o attempt_result first s (
          conclude o attempt_result next first
            (response r)
            (handle_response o can r (begin o attempt_result first s)))
  again_as next can first s r le e p q ih =
      subst (Tried o attempt_result first s)
        (sym (
          ap (conclude o attempt_result next first (response r))
            (handled_again o attempt_result can r (begin o attempt_result first s) q)))
        (unanswered-Tried o attempt_result next first s (response r) le
          (response-final r p ∙ ap final (sym e)) (ap passes e ∙ p) (ap remembered e ∙ p) ih)

  lost_as :
      (next : HttpRunner → Ended) (first : ℕ) (s : HttpRunner) (r : Result) (c : Bool)
      → first ≤ o.max_retries
      → attempt_result first ≡ no_response c
      → non_response r ≡ non_response (no_response c)
      → Next o attempt_result first s next
      → Tried o attempt_result first s
          (unanswered o attempt_result next first r (begin o attempt_result first s))
  lost_as next first s r c le e same ih =
      unanswered-Tried o attempt_result next first s r le (ap throws same ∙ ap final (sym e))
        (ap passes e) (ap remembered e) ih

  auto-Tried :
      (next : HttpRunner → Ended) (first : ℕ) (s : HttpRunner) (r : Result)
      → first ≤ o.max_retries
      → attempt_result first ≡ unstreamed r
      → Next o attempt_result first s next
      → Tried o attempt_result first s
          (attempt_auto o attempt_result next first r (begin o attempt_result first s))
  unfolding attempt_auto
  auto-Tried next first s (no_response c) le e ih =
      lost_as next first s (no_response c) c le e refl ih
  auto-Tried next first s (cut_off r c) le e ih =
      lost_as next first s (cut_off r c) c le e (non_response-cut r c) ih
  auto-Tried next first s (response r) le e ih = elim (Bool-cases (want_retry r)) [
    | inl w ↦ again_as next true first s r le e w w ih
    | inr w ↦ stopped-Tried next true first r s le e w (λ x. absurd (cc))
  ]

  -- A streamed request whose headers came, and which is cut off then.
  cut_off-Tried :
      (next : HttpRunner → Ended) (first : ℕ) (s : HttpRunner) (r : Response) (c : Bool)
      → first ≤ o.max_retries
      → attempt_result first ≡ cut_off r c
      → Next o attempt_result first s next
      → Tried o attempt_result first s (
          attempt_custom o attempt_result next first (cut_off r c) (begin o attempt_result first s))
  unfolding attempt_custom
  cut_off-Tried next first s r c le e ih =
      let b = begin o attempt_result first s in
      let can = may_retry o attempt_result b in
      let after = interrupted o attempt_result next first (cut_off r c) can in
      elim (Bool-cases (can && want_retry r)) [
        | inl w ↦
            subst (λ h. Tried o attempt_result first s (after h))
              (sym (handled_again o attempt_result can r b w))
              (rw (left_true can (want_retry r) w) (
                retry_lem o attempt_result first s b _ (left_true can (want_retry r) w)
                  (ap passes e
                    ∙ first_true (want_retry r) (r.status == 200) (right_true can (want_retry r) w))
                  (ih (left_true can (want_retry r) w) b)))
        | inr w ↦
            let (q, is, state) = handled_stop o attempt_result can r b w in
            subst (λ h. Tried o attempt_result first s (after h)) (sym is) (handled q w state)
      ]
    where
      left_true : (x y : Bool) → (x && y) ≡ true → x ≡ true
      left_true x y h = ground arith

      right_true : (x y : Bool) → (x && y) ≡ true → y ≡ true
      right_true x y h = ground arith

      first_true : (x y : Bool) → x ≡ true → (x || y) ≡ true
      first_true x y h = ground arith

      second_true : (x y : Bool) → y ≡ true → (x || y) ≡ true
      second_true x y h = ground arith

      b : HttpRunner
      b = begin o attempt_result first s

      can : Bool
      can = may_retry o attempt_result b

      by_case :
          (w : Bool)
          → (can && w) ≡ false
          → o.can_retry ≡ true
          → (if w then b.failure_state else false) ≡ w
      by_case true h q = no_retry o.can_retry _ (ground (arith, h)) q
      by_case false h q = refl

      handled :
          (q : HttpRunner)
          → (can && want_retry r) ≡ false
          → q.failure_state ≡ (if want_retry r then b.failure_state else false)
          → Tried o attempt_result first s
              (interrupted o attempt_result next first (cut_off r c) can (by_status r, q))
      handled q w state =
          let remembers : (o.can_retry ≡ true)
              → q.failure_state ≡ remembered (attempt_result first) =
            λ y. state ∙ by_case (want_retry r) w y ∙ ap remembered (sym e) in
          elim (Bool-cases (r.status == 200)) [
            | inl ok ↦ rw ok (elim (Bool-cases can) [
              | inl may ↦ rw may (
                  retry_lem o attempt_result first s q _ may
                    (ap passes e ∙ second_true (want_retry r) (r.status == 200) ok) (ih may q))
              | inr no_more ↦ rw no_more (
                  stop_lem o attempt_result first s q _ le
                    (ap throws (non_response-cut r c) ∙ final_ok ok ∙ ap final (sym e)) remembers)
            ])
            | inr other ↦
                subst (Tried o attempt_result first s)
                  (sym (interrupted-throws o attempt_result next first (cut_off r c) can r q other))
                  (stop_lem o attempt_result first s q (by_status r) le
                    (final_other other ∙ ap final (sym e)) remembers)
          ]
        where
          final_ok :
              (r.status == 200) ≡ true → throws (non_response (no_response c)) ≡ final (cut_off r c)
          final_ok h = rw h refl

          final_other : (r.status == 200) ≡ false → by_status r ≡ final (cut_off r c)
          final_other h = rw h refl

  custom-Tried :
      (next : HttpRunner → Ended) (first : ℕ) (s : HttpRunner) (r : Result)
      → first ≤ o.max_retries
      → attempt_result first ≡ r
      → Next o attempt_result first s next
      → Tried o attempt_result first s
          (attempt_custom o attempt_result next first r (begin o attempt_result first s))
  unfolding attempt_custom
  custom-Tried next first s (no_response c) le e ih =
      lost_as next first s (no_response c) c le e refl ih
  custom-Tried next first s (cut_off r c) le e ih = cut_off-Tried next first s r c le e ih
  custom-Tried next first s (response r) le e ih =
      let can = may_retry o attempt_result (begin o attempt_result first s) in
      elim (Bool-cases (can && want_retry r)) [
        | inl w ↦ again_as next can first s r le e (ground arith) w ih
        | inr w ↦
            stopped-Tried next can first r s le e w
              (λ x y. no_retry o.can_retry _ (ground (arith, w, x)) y)
      ]

  more_attempts :
      (first : ℕ) (s : HttpRunner)
      → first ≤ o.max_retries
      → may_retry o attempt_result (begin o attempt_result first s) ≡ true
      → first < o.max_retries
  more_attempts first s le may = ground arith

  pub do_requests_custom-Tried :
      (fuel first : ℕ) (s : HttpRunner)
      → fuel + first ≡ o.max_retries + 1
      → first ≤ o.max_retries
      → Tried o attempt_result first s (do_requests_custom o attempt_result fuel first s)
  unfolding do_requests_custom
  do_requests_custom-Tried zero first s e le = absurd (omega (arith, e, le))
  do_requests_custom-Tried (suc fuel) first s e le =
      custom-Tried (do_requests_custom o attempt_result fuel (first + 1)) first s
        (attempt_result first) le refl
        (λ may q.
          do_requests_custom-Tried fuel (first + 1) q (omega (arith, e))
            (omega (arith, more_attempts first s le may)))

module _ (o : Options) (attempt_result : ℕ → Result) where
  -- What the attempts of a request that is not streamed come to.
  abbrev pub whole : ℕ → Result
  whole i = unstreamed (attempt_result i)

  pub do_requests_auto-Tried :
      (fuel first : ℕ) (s : HttpRunner)
      → fuel + first ≡ o.max_retries + 1
      → first ≤ o.max_retries
      → Tried o whole first s (do_requests_auto o attempt_result fuel first s)
  unfolding do_requests_auto
  do_requests_auto-Tried zero first s e le = absurd (omega (arith, e, le))
  do_requests_auto-Tried (suc fuel) first s e le =
      auto-Tried o whole (do_requests_auto o attempt_result fuel (first + 1)) first s
        (attempt_result first) le refl
        (λ may q.
          do_requests_auto-Tried fuel (first + 1) q (omega (arith, e))
            (omega (arith, more_attempts o whole first s le may)))

  -- A request, streamed or not, ends within one attempt more than the options allow retries: with
  -- what the last attempt comes to, after attempts that had no response, a status of 500 or 503, or
  -- a body that was cut off. It is tried once where the last request has used all attempts, or
  -- retries are not allowed. Where they are, the runner then remembers the request as failed where
  -- the last attempt had no response or a status of 500 or 503, and only there: a streamed request
  -- whose body was cut off behind another status does not count.
  pub do_requests-Tried :
      (s : HttpRunner)
      → Tried o whole 0 s (do_requests_auto o attempt_result (o.max_retries + 1) 0 s)
        × Tried o attempt_result 0 s (do_requests_custom o attempt_result (o.max_retries + 1) 0 s)
  do_requests-Tried s = (
    do_requests_auto-Tried (o.max_retries + 1) 0 s (omega arith) (omega arith),
    do_requests_custom-Tried o attempt_result (o.max_retries + 1) 0 s (omega arith) (omega arith),
  )
