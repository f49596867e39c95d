-- ===== src/Semaphor/Queued.antt =====
-- Each step of a Semaphor keeps the queue of its waiting threads.
use andromeda_desktop_client.Common.{
  ℕ, ◌<◌, ◌≡◌, sym, inl, inr, Bool, ◌&&◌, ltb, Option, none, some, arith, Bool-cases, subst,
}
use andromeda_desktop_client.Common.Threads.{put, put-put}
use andromeda_desktop_client.Common.Waiters.{
  is_empty, is_front, Line, push_back-Line, pops, put_same, put_self,
}
use andromeda_desktop_client.Semaphor.{
  Semaphor, Place, idle, asleep, woken, holding, Result, Action, tries, locks, wakes, checks,
  releases, act, check,
}

abbrev pub waits_under : Place → Option ℕ
waits_under (asleep x) = some x
waits_under (woken x) = some x
waits_under p = none

abbrev pub LineOf : ℕ → Semaphor → (ℕ → Option ℕ) → Type 0
LineOf n m w = Line n m.queue m.index w

abbrev pub is_ready : ℕ → Semaphor → Bool
is_ready x m = ltb 0 m.available && is_front x m.queue

check-Line :
    {n : ℕ} (i x : ℕ) (m : Semaphor) (w : ℕ → Option ℕ)
    → LineOf n m w
    → w i ≡ some x
    → LineOf n (check x m).semaphor (put w i (waits_under (check x m).place))
unfolding check
check-Line {n} i x m w l e = elim (Bool-cases (is_ready x m)) [
  | inl r ↦ rw r (pops i x m.queue w (ground arith) l e)
  | inr r ↦ rw r (subst (λ f. LineOf n m f) (sym (put_same w i (some x) e)) l)
]

-- To join the queue and test at once.
arrive-Line :
    {n : ℕ} (i x : ℕ) (m : Semaphor) (w : ℕ → Option ℕ)
    → LineOf n m (put w i (some x))
    → LineOf n (check x m).semaphor (put w i (waits_under (check x m).place))
arrive-Line {n} i x m w l =
    subst (λ f. LineOf n (check x m).semaphor f)
      (put-put w i (some x) (waits_under (check x m).place))
      (check-Line i x m (put w i (some x)) l (put_self w i (some x)))

abbrev pub Lines : ℕ → ℕ → (ℕ → Option ℕ) → Option Result → Type 0
Lines n i w none = Unit {0}
Lines n i w (some r) = LineOf n r.semaphor (put w i (waits_under r.place))

same-Line :
    {n i : ℕ} (m : Semaphor) (p : Place) (w : ℕ → Option ℕ)
    → LineOf n m w
    → w i ≡ waits_under p
    → LineOf n m (put w i (waits_under p))
same-Line {n} {i} m p w l e = subst (λ f. LineOf n m f) (sym (put_same w i (waits_under p) e)) l

pub act-Lines :
    {n : ℕ} (a : Action) (m : Semaphor) (p : Place) (i : ℕ) (w : ℕ → Option ℕ)
    → i < n
    → LineOf n m w
    → w i ≡ waits_under p
    → Lines n i w (act a m p)
unfolding act
act-Lines {n} tries m idle i w lt l e = elim (Bool-cases (ltb 0 m.available && is_empty m.queue)) [
  | inl k ↦ rw k (same-Line m idle w l e)
  | inr k ↦ rw k (same-Line m idle w l e)
]
act-Lines {n} locks m idle i w lt l e = arrive-Line i m.index _ w (push_back-Line l i lt e)
act-Lines {n} wakes m (asleep x) i w lt l e = same-Line m (asleep x) w l e
act-Lines {n} checks m (woken x) i w lt l e = check-Line i x m w l e
act-Lines {n} releases m holding i w lt l e = same-Line m idle w l e
act-Lines {n} _ m _ i w lt l e = tt
