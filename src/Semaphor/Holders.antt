-- ===== src/Semaphor/Holders.antt =====
-- How many threads hold a Semaphor.
use andromeda_desktop_client.Common.{
  ℕ, ◌+◌, ◌<◌, ◌≡◌, refl, Bool, true, false, some, inl, inr, arith, Bool-cases,
}
use andromeda_desktop_client.Common.Threads.{
  put, one_if, count, count-put, count_pos, count_same, count_none,
}
use andromeda_desktop_client.Semaphor.{
  Semaphor, Place, idle, holding, Result, Action, act, wake, System, after, Step, moves, Reach,
  start, later,
}

abbrev pub is_holding : Place → Bool
is_holding holding = true
is_holding p = false

-- One action, given the number of threads that hold it before and after.
act-counts :
    (a : Action) (m : Semaphor) (p : Place) (x : Result) (max w w' : ℕ)
    → act a m p ≡ some x
    → m.available + w ≡ max
    → (is_holding p ≡ true → 0 < w)
    → w' + one_if (is_holding p) ≡ w + one_if (is_holding x.place)
    → x.semaphor.available + w' ≡ max
unfolding act
act-counts a m p x max w w' e h f c = ground arith

is_holding-wake : (q : Place) → is_holding (wake q) ≡ is_holding q
is_holding-wake q = ground arith

count-after :
    (n i : ℕ) (s : System) (x : Result)
    → i < n
    → count is_holding n (after s i x).place + one_if (is_holding (s.place i))
      ≡ count is_holding n s.place + one_if (is_holding x.place)
unfolding after
count-after n i s x lt = elim (Bool-cases x.notifies) [
  | inr e ↦ rw e (count-put is_holding n i s.place x.place lt)
  | inl e ↦ rw e (
      omega (
        arith,
        count_same is_holding n (λ j. wake (put s.place i x.place j)) (put s.place i x.place)
            (λ j. is_holding-wake (put s.place i x.place j)),
        count-put is_holding n i s.place x.place lt,
      ))
]

Step-holders :
    {n : ℕ} {s t : System} (max : ℕ)
    → Step n s t
    → s.semaphor.available + count is_holding n s.place ≡ max
    → t.semaphor.available + count is_holding n t.place ≡ max
Step-holders {n} {s} max (moves i a x lt e) h =
    let c =
      act-counts a s.semaphor (s.place i) x max (count is_holding n s.place)
        (count is_holding n (after s i x).place) e h (count_pos is_holding n i s.place lt)
        (count-after n i s x lt) in
    unfold after in c

-- Whatever the threads do in whatever order: the places that are free and the threads that hold one
-- are together as many as the semaphore has been made for.
pub holders-Reach :
    {n max : ℕ} {s : System}
    → Reach n max s
    → s.semaphor.available + count is_holding n s.place ≡ max
holders-Reach {n} start = omega (arith, count_none is_holding n idle refl)
holders-Reach {n} {max} (later r st) = Step-holders max st (holders-Reach r)
