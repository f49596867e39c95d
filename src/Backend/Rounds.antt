-- ===== src/Backend/Rounds.antt =====
-- One round of SendFile of BackendImpl.cpp: the request, and each answer to it.
use mathlib.Core.List.{append_assoc, append-nil}
use andromeda_desktop_client.Common.{
  ℕ, ◌+◌, ◌-◌, ◌/◌, ◌≤◌, ◌<◌, ◌≡◌, refl, sym, ◌∙◌, ap, Bool, true, false, not, ◌&&◌, if◌then◌else◌,
  ltb, ◌==◌, List, [], ◌∷◌, ◌++◌, inl, inr, arith, min, length, drop, Bool-cases, subst, ℕ_discrete,
  length-append,
}
use andromeda_desktop_client.Backend.Uploads.{
  from_string, Error, write_size, input_size, refused, Request, Reply, accepted, no_id, too_large,
  fails, streamed, Sent, thrown, request, stream_size, answered,
}
use andromeda_desktop_client.Backend.Streams.{At, Reads}
use andromeda_desktop_client.Backend.Requests.{
  body, bodies, bodies-append, drop_all, Starts, Follows, Follows-append, Delivered,
}

module _ (has_upload : Bool) (offset : ℕ) where
  pub record Sending (xs : List ℕ) (oneshot : Bool) (log : List Request) (byte : ℕ) : Type 0 where
    pub done : bodies log ++ drop byte xs ≡ xs
    pub inside : byte ≤ length xs
    pub count : byte ≡ length (bodies log)
    pub follows : Follows offset 0 log
    pub once : oneshot ≡ true → log ≡ []

  module _ (xs : List ℕ) (buflen : ℕ) (oneshot : Bool) (server : ℕ → Request → Reply) where
    abbrev pub next_request : ℕ → ℕ → List ℕ → Request
    next_request = request (from_string xs) buflen oneshot has_upload offset server

    pub body-request : (id byte : ℕ) (bs : List ℕ) → body (next_request id byte bs) ≡ bs
    body-request id byte bs = elim (Bool-cases (byte == 0 && has_upload)) [
      | inl e ↦ rw e refl
      | inr e ↦ rw e refl
    ]

    Starts-request : (id byte : ℕ) (bs : List ℕ) → Starts offset byte (next_request id byte bs)
    Starts-request id byte bs = elim (Bool-cases (byte == 0 && has_upload)) [
      | inl e ↦ rw e (ground arith)
      | inr e ↦ rw e refl
    ]

    -- What is known once a request has been carried out.
    record Advanced (log : List Request) (byte : ℕ) (bs : List ℕ) (id : ℕ) : Type 0 where
      done : bodies (log ++ next_request id byte bs ∷ []) ++ drop (byte + length bs) xs ≡ xs
      count : byte + length bs ≡ length (bodies (log ++ next_request id byte bs ∷ []))
      follows : Follows offset 0 (log ++ next_request id byte bs ∷ [])

    advance :
        (log : List Request) (byte id : ℕ) (bs : List ℕ)
        → Sending xs oneshot log byte
        → At (byte + 0) bs xs
        → Advanced log byte bs id
    advance log byte id bs s at =
        let r = next_request id byte bs in
        let all : bodies (log ++ r ∷ []) ≡ bodies log ++ bs =
          bodies-append log r ∙ ap (λ t. bodies log ++ t) (body-request id byte bs) in
        record {
          done =
              ap (λ t. t ++ drop (byte + length bs) xs) all
              ∙ append_assoc (bodies log) bs (drop (byte + length bs) xs)
              ∙ ap (λ t. bodies log ++ t) (subst (λ n. At n bs xs) (omega arith) at)
              ∙ s.done;
          count = omega (arith, ap length all, length-append (bodies log) bs, s.count);
          follows =
              Follows-append offset 0 log r s.follows (
                subst (λ t. Starts offset t r) (omega (arith, s.count))
                  (Starts-request id byte bs));
        }

    -- What is left, with what the limit may still fall by.
    unfoldable pub rank : ℕ → ℕ → ℕ
    rank max_size byte =
        let left = length xs - byte in
        left + (if max_size == 0 then left + 1 else min max_size (left + 1))

    abbrev pub DeliversBelow : (List Request → ℕ → ℕ → ℕ → Sent) → ℕ → Type 0
    DeliversBelow next n =
        (log : List Request) (max_size id byte : ℕ)
        → Sending xs oneshot log byte
        → rank max_size byte < n
        → Delivered offset xs oneshot (next log max_size id byte)

    abbrev pub Goal :
        (List Request → ℕ → ℕ → ℕ → Sent)
        → List Request
        → ℕ
        → ℕ
        → ℕ
        → List ℕ
        → Bool
        → Reply
        → Type 0
    Goal next log max_size id byte bs cont reply = Delivered offset xs oneshot (
        answered (from_string xs) buflen oneshot has_upload offset server next log max_size id byte
          bs cont reply)

    pub if-Delivered :
        (b : Bool) (x y : Sent)
        → (b ≡ true → Delivered offset xs oneshot x)
        → (b ≡ false → Delivered offset xs oneshot y)
        → Delivered offset xs oneshot (if b then x else y)
    if-Delivered true x y h k = h refl
    if-Delivered false x y h k = k refl

    pub Delivered-part :
        {log : List Request} {byte : ℕ} (e : Error) (m : ℕ)
        → Sending xs oneshot log byte
        → Delivered offset xs oneshot (thrown e log m)
    Delivered-part {byte = byte} e m s = ((drop byte xs, s.done), s.follows)

    pub accepted-Delivered :
        (next : List Request → ℕ → ℕ → ℕ → Sent) (log : List Request) (max_size id byte : ℕ)
        (bs : List ℕ) (cont : Bool) (new_id retries : ℕ)
        → DeliversBelow next (rank max_size byte)
        → Sending xs oneshot log byte
        → Reads xs buflen max_size byte oneshot 0 (streamed bs cont)
        → retries ≡ 0
        → Goal next log max_size id byte bs cont (accepted new_id retries)
    unfolding answered rank
    accepted-Delivered next log max_size id byte bs true new_id retries ih s
          (at, inside, all, more, bound, nonempty) once =
        let a = advance log byte id bs s at in
        let (p, q, r) = more refl in
        let step : byte + stream_size retries bs ≡ byte + length bs = rw once refl in
        rw step (
          ih (log ++ next_request id byte bs ∷ []) max_size new_id (byte + length bs)
            (record {
              done = a.done;
              inside = omega (arith, inside);
              count = a.count;
              follows = a.follows;
              once = λ e. absurd (cc);
            })
            (ground (arith, inside, p, q)))
    accepted-Delivered next log max_size id byte bs false new_id retries ih s
          (at, inside, all, more, bound, nonempty) once =
        let a = advance log byte id bs s at in
        let end : byte + 0 + length bs ≡ length xs = all refl in
        (
          sym (append-nil (bodies (log ++ next_request id byte bs ∷ [])))
              ∙ ap (λ t. bodies (log ++ next_request id byte bs ∷ []) ++ t)
                  (sym (drop_all (byte + length bs) xs (omega (arith, end))))
              ∙ a.done,
          a.follows,
          λ e. ap (λ t. length (t ++ next_request id byte bs ∷ [])) (s.once e),
        )

    pub too_large-Delivered :
        (next : List Request → ℕ → ℕ → ℕ → Sent) (log : List Request) (max_size id byte : ℕ)
        (bs : List ℕ) (cont : Bool) (retries : ℕ)
        → DeliversBelow next (rank max_size byte)
        → Sending xs oneshot log byte
        → Reads xs buflen max_size byte oneshot 0 (streamed bs cont)
        → retries ≡ 0
        → 1 < length bs
        → Goal next log max_size id byte bs cont (too_large retries)
    unfolding answered rank
    too_large-Delivered next log max_size id byte bs cont retries ih s
          (at, inside, all, more, bound, nonempty) once big =
        let half : stream_size retries bs / 2 ≡ length bs / 2 =
          ap (λ r. stream_size r bs / 2) once in
        if-Delivered (not (max_size == 0) && ltb max_size 4096) _ _
          (λ e. Delivered-part input_size max_size s)
          (λ e.
            if-Delivered oneshot _ _
              (λ o. Delivered-part write_size ((stream_size retries bs / 2)) s)
              (λ o. ih log _ id byte s (smaller half)))
      where
        smaller :
            (stream_size retries bs / 2) ≡ length bs / 2
            → rank ((stream_size retries bs / 2)) byte < rank max_size byte
        smaller half = rw half (elim (ℕ_discrete max_size 0) [
          | yes z ↦ ground (arith, inside, big)
          | no z ↦
              let small = bound (omega (arith, z)) (omega (arith, z)) in
              ground (arith, inside, big, small)
        ])

    pub no_id-Delivered :
        (next : List Request → ℕ → ℕ → ℕ → Sent) (log : List Request) (max_size id byte : ℕ)
        (bs : List ℕ) (cont : Bool)
        → Sending xs oneshot log byte
        → Reads xs buflen max_size byte oneshot 0 (streamed bs cont)
        → Goal next log max_size id byte bs cont no_id
    unfolding answered
    no_id-Delivered next log max_size id byte bs cont s h =
        let a = advance log byte id bs s h.0 in ((drop (byte + length bs) xs, a.done), a.follows)

    pub fails-Delivered :
        (next : List Request → ℕ → ℕ → ℕ → Sent) (log : List Request) (max_size id byte : ℕ)
        (bs : List ℕ) (cont : Bool)
        → Sending xs oneshot log byte
        → Goal next log max_size id byte bs cont fails
    unfolding answered
    fails-Delivered next log max_size id byte bs cont s = Delivered-part refused max_size s
