-- ===== src/SharedMutex/Progress.antt =====
-- That a SharedMutex loses no notification: the thread whose turn it is does not sleep.
use andromeda_desktop_client.Common.{
  ℕ, ◌+◌, ◌<◌, ◌≡◌, ◌≢◌, refl, sym, ◌∙◌, ap, ◌⊎◌, inl, inr, true, false, Option, none, some, arith,
  ℕ_discrete, Bool-cases, subst,
}
use mathlib.Core.Path.{fun_ext}
use andromeda_desktop_client.Common.Threads.{put, count}
use andromeda_desktop_client.Common.Waiters.{
  is_front, contains, Line, is_front-push, is_front-contains, contains-is_empty, contains-pop_front,
  front_of,
}
use andromeda_desktop_client.SharedMutex.{
  SharedMutex, Kind, for_write, for_read, Place, idle, asleep, woken, writing, reading, Result,
  Action, tries, writes, reads, reads_first, wakes, checks, releases, act, wake, System, after,
  Step, moves, init, Reach, start, later, is_ready,
}
use andromeda_desktop_client.SharedMutex.Queued.{waits_under, LineOf, Lines, act-Lines}
use andromeda_desktop_client.SharedMutex.Exclusion.{
  is_writing, is_reading, Held, Reach-Held, Step-Held,
}

-- A thread that waits under `y` and whose test fails.
record Blocked (m : SharedMutex) (k : Kind) (y : ℕ) : Type 0 where
  in_queue : contains y m.queue ≡ true
  older : y < m.index
  new_index : contains m.index m.queue ≡ false
  fails : is_ready k y m ≡ false
  free : m.locked ≡ false → m.readers ≡ 0

abbrev FailsAfter : Kind → ℕ → Option Result → Type 0
FailsAfter k y none = Unit {0}
FailsAfter k y (some r) = r.notifies ≡ false → is_ready k y r.mutex ≡ false

-- Another thread's step notifies it, or its test still fails.
act-FailsAfter :
    (a : Action) (m : SharedMutex) (p : Place) (k : Kind) (y : ℕ)
    → Blocked m k y
    → waits_under p ≢ some y
    → FailsAfter k y (act a m p)
unfolding act is_ready
act-FailsAfter tries m idle k y b d = λ h. ground (arith, contains-is_empty y m.queue b.in_queue)
act-FailsAfter writes m idle k y b d = λ h. ground (
  arith,
  is_front-push m.index y y m.queue b.in_queue,
  is_front-push m.index y m.index m.queue b.in_queue,
  is_front-contains m.index m.queue b.new_index,
)
act-FailsAfter reads m idle k y b d = λ h. ground (
  arith,
  is_front-push m.index y y m.queue b.in_queue,
  is_front-push m.index y m.index m.queue b.in_queue,
  is_front-contains m.index m.queue b.new_index,
)
act-FailsAfter reads_first m idle k y b d =
    λ h. ground (arith, contains-is_empty y m.queue b.in_queue)
act-FailsAfter wakes m (asleep j x) k y b d = λ h. b.fails
act-FailsAfter checks m (woken j x) k y b d =
    λ h. ground (arith, contains-pop_front x y m.queue b.in_queue)
act-FailsAfter releases m writing k y b d =
    λ h. ground (arith, contains-is_empty y m.queue b.in_queue)
act-FailsAfter releases m reading k y b d =
    λ h. ground (arith, contains-is_empty y m.queue b.in_queue)
act-FailsAfter _ m _ k y b d = tt

abbrev SleepsFailed : Option Result → Type 0
SleepsFailed none = Unit {0}
SleepsFailed (some r) = (k : Kind) (y : ℕ) → r.place ≡ asleep k y → is_ready k y r.mutex ≡ false

-- A thread goes to sleep only when its test has failed.
act-SleepsFailed : (a : Action) (m : SharedMutex) (p : Place) → SleepsFailed (act a m p)
unfolding act is_ready
act-SleepsFailed tries m idle = λ k y h. ground arith
act-SleepsFailed writes m idle = λ k y h. ground arith
act-SleepsFailed reads m idle = λ k y h. ground arith
act-SleepsFailed reads_first m idle = λ k y h. ground arith
act-SleepsFailed wakes m (asleep j x) = λ k y h. ground arith
act-SleepsFailed checks m (woken j x) = λ k y h. ground arith
act-SleepsFailed releases m writing = λ k y h. ground arith
act-SleepsFailed releases m reading = λ k y h. ground arith
act-SleepsFailed _ m _ = tt

record Orderly (n : ℕ) (s : System) : Type 0 where
  held : Held n s.mutex s.place
  line : Line n s.mutex.queue s.mutex.index (λ i. waits_under (s.place i))
  sleeps : (i : ℕ) (k : Kind) (y : ℕ) → s.place i ≡ asleep k y → is_ready k y s.mutex ≡ false

waits_under-after :
    (s : System) (i : ℕ) (r : Result)
    → put (λ j. waits_under (s.place j)) i (waits_under r.place)
      ≡ (λ j. waits_under ((after s i r).place j))
unfolding after
waits_under-after s i r = fun_ext (λ j. ground arith)

wake-asleep : (p : Place) (k : Kind) (y : ℕ) → wake p ≢ asleep k y
wake-asleep p k y h = ground arith

unlocked : {n : ℕ} {m : SharedMutex} {f : ℕ → Place} → Held n m f → m.locked ≡ false → m.readers ≡ 0
unlocked h e = ground (arith, h.holders)

after-notified :
    (s : System) (i j : ℕ) (r : Result)
    → r.notifies ≡ true
    → (after s i r).place j ≡ wake (put s.place i r.place j)
unfolding after
after-notified s i j r e = rw e refl

after-quiet :
    (s : System) (i j : ℕ) (r : Result)
    → r.notifies ≡ false
    → (after s i r).place j ≡ put s.place i r.place j
unfolding after
after-quiet s i j r e = rw e refl

sleeper-Blocked :
    {n : ℕ} (s : System) (j : ℕ) (k : Kind) (y : ℕ)
    → Orderly n s
    → s.place j ≡ asleep k y
    → Blocked s.mutex k y
sleeper-Blocked s j k y o h =
    let present = o.line.queued j y (ap waits_under h) in
    record {
      in_queue = present;
      older = o.line.small y present;
      new_index = ground (arith, o.line.small s.mutex.index);
      fails = o.sleeps j k y h;
      free = unlocked o.held;
    }

Step-sleeps :
    {n : ℕ} (s : System) (i : ℕ) (a : Action) (r : Result)
    → Orderly n s
    → act a s.mutex (s.place i) ≡ some r
    → (j : ℕ) (k : Kind) (y : ℕ) → (after s i r).place j ≡ asleep k y
    → is_ready k y r.mutex ≡ false
Step-sleeps s i a r o e j k y h = elim (Bool-cases r.notifies) [
  | inl q ↦ absurd (wake-asleep (put s.place i r.place j) k y (sym (after-notified s i j r q) ∙ h))
  | inr q ↦
      let quiet : put s.place i r.place j ≡ asleep k y = sym (after-quiet s i j r q) ∙ h in
      elim (ℕ_discrete j i) [
        | yes same ↦
            subst SleepsFailed e (act-SleepsFailed a s.mutex (s.place i)) k y
              (ground (arith, quiet))
        | no other ↦
            let at : s.place j ≡ asleep k y = ground (arith, quiet) in
            subst (FailsAfter k y) e
              (act-FailsAfter a s.mutex (s.place i) k y (sleeper-Blocked s j k y o at)
                (λ g. other (o.line.alone j i y (ap waits_under at) g)))
              q
      ]
]

Step-Orderly : {n : ℕ} {s t : System} → Step n s t → Orderly n s → Orderly n t
Step-Orderly {n} {s} (moves i a r lt e) o = record {
  held = Step-Held (moves i a r lt e) o.held;
  line =
      let w = λ (j : ℕ). waits_under (s.place j) in
      unfold after in
      subst (λ f. LineOf n r.mutex f) (waits_under-after s i r)
        (subst (Lines n i w) e (act-Lines a s.mutex (s.place i) i w lt o.line refl));
  sleeps = λ j k y h. unfold after in Step-sleeps s i a r o e j k y h;
}

init-Orderly : (n : ℕ) → Orderly n init
init-Orderly n = record {
  held = Reach-Held start;
  line = record {
    small = λ x h. absurd (cc);
    distinct = tt;
    queued = λ i x h. absurd (cc);
    alone = λ i j x h g. absurd (cc);
    owned = λ x h. absurd (cc);
  };
  sleeps = λ i k y h. absurd (cc);
}

Reach-Orderly : {n : ℕ} {s : System} → Reach n s → Orderly n s
Reach-Orderly {n} start = init-Orderly n
Reach-Orderly (later r st) = Step-Orderly st (Reach-Orderly r)

blocked-Held :
    {n : ℕ} {f : ℕ → Place} (m : SharedMutex) (k : Kind) (y : ℕ)
    → Held n m f
    → is_front y m.queue ≡ true
    → is_ready k y m ≡ false
    → 0 < count is_writing n f + count is_reading n f
unfolding is_ready
blocked-Held m for_write y h e r = ground (arith, h.holders, h.readers)
blocked-Held m for_read y h e r = ground (arith, h.holders, h.readers)

-- The thread at the front of the queue is awake, or a thread has the lock.
abbrev pub HasTurn : ℕ → System → Type 0
HasTurn n s =
    (j : ℕ) × (k : Kind) × (y : ℕ) × (j < n)
    × (is_front y s.mutex.queue ≡ true)
    × ((s.place j ≡ woken k y)
        ⊎ ((s.place j ≡ asleep k y)
            × (0 < count is_writing n s.place + count is_reading n s.place)))

-- Whatever the threads do in whatever order: while a thread waits, one thread waits at the front of
-- the queue, and it is awake, or a thread has the lock.
pub waiting-Reach :
    {n : ℕ} {s : System} (i x : ℕ) → Reach n s → waits_under (s.place i) ≡ some x → HasTurn n s
waiting-Reach {n} {s} i x r h =
    let o = Reach-Orderly r in
    let (y, front, present) = front_of x s.mutex.queue (o.line.queued i x h) in
    let (j, lt, w) = o.line.owned y present in turn o j y lt front (s.place j) refl w
  where
    turn :
        Orderly n s
        → (j y : ℕ) → j < n
        → is_front y s.mutex.queue ≡ true
        → (p : Place) → s.place j ≡ p
        → waits_under p ≡ some y
        → HasTurn n s
    turn o j y lt front (woken k z) e w =
        let same : z ≡ y = cc in (j, k, y, lt, front, inl (e ∙ ap (woken k) same))
    turn o j y lt front (asleep k z) e w =
        let same : z ≡ y = cc in
        let at : s.place j ≡ asleep k y = e ∙ ap (asleep k) same in
        (j, k, y, lt, front, inr (at, blocked-Held s.mutex k y o.held front (o.sleeps j k y at)))
    turn o j y lt front _ e w = absurd (cc)
