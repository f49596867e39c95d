-- ===== src/Backend/Attempts.antt =====
-- One attempt of a request of HTTPRunner.cpp, and what the request comes to where it is the last one.
use andromeda_desktop_client.Common.{
  ℕ, suc, ◌+◌, ◌-◌, ◌≤◌, ◌<◌, ◌≡◌, ◌≢◌, refl, sym, ◌∙◌, ap, Bool, true, false, not, ◌&&◌, ◌||◌,
  ◌==◌, if◌then◌else◌, List, inl, inr, arith, ℕ_discrete, Bool-cases,
}
use andromeda_desktop_client.Backend.HttpRunner.{
  Response, Result, response, no_response, cut_off, Options, HttpRunner, Handled, again, answer,
  throws, want_retry, by_status, handle_response, non_response, Ended, begin, may_retry, unanswered,
  conclude, interrupted, register_redirect, is_empty_text,
}

-- A request that is not streamed has no response where it is cut off.
abbrev pub unstreamed : Result → Result
unstreamed (cut_off r c) = no_response c
unstreamed (no_response c) = no_response c
unstreamed (response r) = response r

-- A failure that may pass: no response, a status of 500 or 503, or a body that is cut off.
abbrev pub passes : Result → Bool
passes (no_response c) = true
passes (cut_off r c) = want_retry r || r.status == 200
passes (response r) = want_retry r

-- Whether the runner remembers the attempt as failed: a body that is cut off does not count.
abbrev pub remembered : Result → Bool
remembered (no_response c) = true
remembered (cut_off r c) = want_retry r
remembered (response r) = want_retry r

-- What the last attempt comes to.
abbrev pub final : Result → Handled
final (no_response c) = throws (non_response (no_response c))
final (cut_off r c) = if r.status == 200 then throws (non_response (no_response c)) else by_status r
final (response r) = by_status r

pub response-final :
    (r : Response) → want_retry r ≡ true → throws (non_response (response r)) ≡ final (response r)
response-final r p = ground arith

pub non_response-cut :
    (r : Response) (c : Bool) → non_response (cut_off r c) ≡ non_response (no_response c)
non_response-cut r true = refl
non_response-cut r false = refl

pub ok-passes : (r : Response) → (r.status == 200) ≡ true → want_retry r ≡ false
ok-passes r h = ground arith

pub by_status-again : (r : Response) → by_status r ≢ again
by_status-again r h = ground arith

pub no_retry : (a b : Bool) → (a && not b) ≡ false → a ≡ true → b ≡ true
no_retry a b h e = ground arith

module _ (o : Options) (attempt_result : ℕ → Result) where
  pub record Tried (first : ℕ) (s : HttpRunner) (e : Ended) : Type 0 where
    pub last : e.outcome ≡ final (attempt_result (e.attempts - 1))
    pub some_attempt : first < e.attempts
    pub most : e.attempts ≤ o.max_retries + 1
    pub before : (i : ℕ) → first ≤ i → suc i < e.attempts → passes (attempt_result i) ≡ true
    pub once :
        may_retry o attempt_result (begin o attempt_result first s) ≡ false → e.attempts ≡ first + 1
    pub remembers :
        (o.can_retry ≡ true) → e.runner.failure_state ≡ remembered (attempt_result (e.attempts - 1))

  pub retry_lem :
      (first : ℕ) (s q : HttpRunner) (e : Ended)
      → may_retry o attempt_result (begin o attempt_result first s) ≡ true
      → passes (attempt_result first) ≡ true
      → Tried (first + 1) q e
      → Tried first s e
  retry_lem first s q e may p t = record {
    last = t.last;
    some_attempt = omega (arith, t.some_attempt);
    most = t.most;
    before = λ i le lt. elim (ℕ_discrete i first) [
      | yes same ↦ ap (λ n. passes (attempt_result n)) same ∙ p
      | no other ↦ t.before i (omega (arith, le, other)) lt
    ];
    once = λ no_more. absurd (cc);
    remembers = t.remembers;
  }

  pub stop_lem :
      (first : ℕ) (s r : HttpRunner) (h : Handled)
      → first ≤ o.max_retries
      → h ≡ final (attempt_result first)
      → (o.can_retry ≡ true → r.failure_state ≡ remembered (attempt_result first))
      → Tried first s (record { outcome = h; runner = r; attempts = first + 1 })
  stop_lem first s r h le e f =
      let same : first + 1 - 1 ≡ first = omega arith in
      record {
        last = e ∙ ap (λ n. final (attempt_result n)) (sym same);
        some_attempt = omega arith;
        most = omega (arith, le);
        before = λ i q lt. absurd (omega (arith, q, lt));
        once = λ no_more. refl;
        remembers = λ q. f q ∙ ap (λ n. remembered (attempt_result n)) (sym same);
      }

  abbrev pub Next : ℕ → HttpRunner → (HttpRunner → Ended) → Type 0
  Next first s next =
      may_retry o attempt_result (begin o attempt_result first s) ≡ true
      → (q : HttpRunner) → Tried (first + 1) q (next q)

  -- No response, or one that is not handled any further.
  pub unanswered-Tried :
      (next : HttpRunner → Ended) (first : ℕ) (s : HttpRunner) (r : Result)
      → first ≤ o.max_retries
      → throws (non_response r) ≡ final (attempt_result first)
      → passes (attempt_result first) ≡ true
      → remembered (attempt_result first) ≡ true
      → Next first s next
      → Tried first s (unanswered o attempt_result next first r (begin o attempt_result first s))
  unanswered-Tried next first s r le f p m ih =
      elim (Bool-cases (may_retry o attempt_result (begin o attempt_result first s))) [
        | inl may ↦ rw may (
            retry_lem first s (begin o attempt_result first s) _ may p
              (ih may (begin o attempt_result first s)))
        | inr no_more ↦ rw no_more (
            stop_lem first s (begin o attempt_result first s) _ le f
              (λ q. no_retry o.can_retry _ no_more q ∙ sym m))
      ]

  pub concluded :
      (next : HttpRunner → Ended) (first : ℕ) (r : Result) (h : Handled) (s : HttpRunner)
      → h ≢ again
      → conclude o attempt_result next first r (h, s)
        ≡ record { outcome = h; runner = s; attempts = first + 1 }
  concluded next first r again s d = absurd (d refl)
  concluded next first r (answer b j) s d = refl
  concluded next first r (throws e) s d = refl

  -- A response that throws ends the request also where its body is cut off.
  pub interrupted-throws :
      (next : HttpRunner → Ended) (first : ℕ) (x : Result) (can : Bool) (r : Response)
      (q : HttpRunner)
      → (r.status == 200) ≡ false
      → interrupted o attempt_result next first x can (by_status r, q)
        ≡ record { outcome = by_status r; runner = q; attempts = first + 1 }
  interrupted-throws next first x can r q h =
      rw h (elim (Bool-cases (r.status == 301 || r.status == 302)) [
        | inl e ↦ rw e refl
        | inr e ↦
            rw e (elim (Bool-cases (r.status == 413)) [ inl d ↦ rw d refl | inr d ↦ rw d refl ])
      ])

  pub redirect_keeps :
      (b : Bool) (location : List ℕ) (s : HttpRunner)
      → (if b then register_redirect location s else s).failure_state ≡ s.failure_state
  unfolding register_redirect
  redirect_keeps true location s = refl
  redirect_keeps false location s = refl

  -- A response is handled: it is not to be tried again, or it may be.
  pub handled_stop :
      (can : Bool) (r : Response) (s : HttpRunner)
      → (can && want_retry r) ≡ false
      → (q : HttpRunner) × (handle_response o can r s ≡ (by_status r, q))
        × (q.failure_state ≡ (if want_retry r then s.failure_state else false))
  unfolding handle_response
  handled_stop can r s e =
      let known = if want_retry r then s else record s { failure_state = false } in
      let b = o.follow_redirects && not (is_empty_text r.location) in
      (
        if b then register_redirect r.location known else known,
        rw e refl,
        redirect_keeps b r.location known ∙ if_field (want_retry r) s,
      )
    where
      if_field :
          (c : Bool) (t : HttpRunner)
          → (if c then t else record t { failure_state = false }).failure_state
            ≡ (if c then t.failure_state else false)
      if_field true t = refl
      if_field false t = refl

  pub handled_again :
      (can : Bool) (r : Response) (s : HttpRunner)
      → (can && want_retry r) ≡ true
      → handle_response o can r s ≡ (again, s)
  unfolding handle_response
  handled_again can r s e = rw e refl
