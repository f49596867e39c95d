-- ===== src/SharedMutex/Queued.antt =====
-- Each step of a SharedMutex keeps the queue of its waiting threads.
use andromeda_desktop_client.Common.{
  ℕ, ◌<◌, ◌≡◌, sym, inl, inr, true, not, ◌&&◌, ltb, Option, none, some, arith, Bool-cases, subst,
}
use andromeda_desktop_client.Common.Threads.{put, put-put}
use andromeda_desktop_client.Common.Waiters.{
  is_empty, is_front, Line, push_back-Line, push_front-Line, pops, put_same, put_self,
}
use andromeda_desktop_client.SharedMutex.{
  SharedMutex, Kind, for_write, for_read, Place, idle, asleep, woken, writing, reading, Result,
  Action, tries, writes, reads, reads_first, wakes, checks, releases, act, check, take, is_ready,
  push_back, push_front,
}

abbrev pub waits_under : Place → Option ℕ
waits_under (asleep k x) = some x
waits_under (woken k x) = some x
waits_under p = none

abbrev pub LineOf : ℕ → SharedMutex → (ℕ → Option ℕ) → Type 0
LineOf n m w = Line n m.queue m.index w

take-Line :
    {n : ℕ} (k : Kind) (i x : ℕ) (m : SharedMutex) (w : ℕ → Option ℕ)
    → is_front x m.queue ≡ true
    → LineOf n m w
    → w i ≡ some x
    → LineOf n (take k m).mutex (put w i (waits_under (take k m).place))
unfolding take
take-Line for_write i x m w h l e = pops i x m.queue w h l e
take-Line for_read i x m w h l e = pops i x m.queue w h l e

check-Line :
    {n : ℕ} (k : Kind) (i x : ℕ) (m : SharedMutex) (w : ℕ → Option ℕ)
    → LineOf n m w
    → w i ≡ some x
    → LineOf n (check k x m).mutex (put w i (waits_under (check k x m).place))
unfolding check
check-Line {n} k i x m w l e = elim (Bool-cases (is_ready k x m)) [
  | inl r ↦ rw r (take-Line k i x m w (front k r) l e)
  | inr r ↦ rw r (subst (λ f. LineOf n m f) (sym (put_same w i (some x) e)) l)
]
  where
    front : (j : Kind) → is_ready j x m ≡ true → is_front x m.queue ≡ true
    front j h = unfold is_ready in ground arith

-- To join the queue and test at once.
arrive-Line :
    {n : ℕ} (k : Kind) (i x : ℕ) (m : SharedMutex) (w : ℕ → Option ℕ)
    → LineOf n m (put w i (some x))
    → LineOf n (check k x m).mutex (put w i (waits_under (check k x m).place))
arrive-Line {n} k i x m w l =
    subst (λ f. LineOf n (check k x m).mutex f)
      (put-put w i (some x) (waits_under (check k x m).place))
      (check-Line k i x m (put w i (some x)) l (put_self w i (some x)))

abbrev pub Lines : ℕ → ℕ → (ℕ → Option ℕ) → Option Result → Type 0
Lines n i w none = Unit {0}
Lines n i w (some r) = LineOf n r.mutex (put w i (waits_under r.place))

same-Line :
    {n i : ℕ} (m : SharedMutex) (p : Place) (w : ℕ → Option ℕ)
    → LineOf n m w
    → w i ≡ waits_under p
    → LineOf n m (put w i (waits_under p))
same-Line {n} {i} m p w l e = subst (λ f. LineOf n m f) (sym (put_same w i (waits_under p) e)) l

pub act-Lines :
    {n : ℕ} (a : Action) (m : SharedMutex) (p : Place) (i : ℕ) (w : ℕ → Option ℕ)
    → i < n
    → LineOf n m w
    → w i ≡ waits_under p
    → Lines n i w (act a m p)
unfolding act push_back push_front
act-Lines {n} tries m idle i w lt l e = elim (Bool-cases (not m.locked && is_empty m.queue)) [
  | inl k ↦ rw k (same-Line m idle w l e)
  | inr k ↦ rw k (same-Line m idle w l e)
]
act-Lines {n} writes m idle i w lt l e =
    arrive-Line for_write i m.index (push_back m) w (push_back-Line l i lt e)
act-Lines {n} reads m idle i w lt l e =
    arrive-Line for_read i m.index (push_back m) w (push_back-Line l i lt e)
act-Lines {n} reads_first m idle i w lt l e = elim (Bool-cases (ltb 0 m.readers)) [
  | inl k ↦ rw k (same-Line m idle w l e)
  | inr k ↦ rw k (arrive-Line for_read i m.index (push_front m) w (push_front-Line l i lt e))
]
act-Lines {n} wakes m (asleep k x) i w lt l e = same-Line m (asleep k x) w l e
act-Lines {n} checks m (woken k x) i w lt l e = check-Line k i x m w l e
act-Lines {n} releases m writing i w lt l e = same-Line m idle w l e
act-Lines {n} releases m reading i w lt l e = same-Line m idle w l e
act-Lines {n} _ m _ i w lt l e = tt
