-- ===== src/Semaphor/Progress.antt =====
-- That a Semaphor loses no notification: the thread whose turn it is sleeps only while all places are
-- taken.
use andromeda_desktop_client.Common.{
  ℕ, ◌<◌, ◌≡◌, ◌≢◌, refl, sym, ◌∙◌, ap, ◌⊎◌, inl, inr, true, false, Option, none, some, arith,
  ℕ_discrete, Bool-cases, subst,
}
use mathlib.Core.Path.{fun_ext}
use andromeda_desktop_client.Common.Threads.{put, count}
use andromeda_desktop_client.Common.Waiters.{
  is_front, contains, Line, is_front-push, is_front-contains, contains-is_empty, contains-pop_front,
  front_of,
}
use andromeda_desktop_client.Semaphor.{
  Semaphor, Place, idle, asleep, woken, holding, Result, Action, tries, locks, wakes, checks,
  releases, act, wake, System, after, Step, moves, init, Reach, start, later,
}
use andromeda_desktop_client.Semaphor.Holders.{is_holding, holders-Reach}
use andromeda_desktop_client.Semaphor.Queued.{waits_under, LineOf, is_ready, Lines, act-Lines}

-- A thread that waits under `y` and whose test fails.
record Blocked (m : Semaphor) (y : ℕ) : Type 0 where
  in_queue : contains y m.queue ≡ true
  older : y < m.index
  new_index : contains m.index m.queue ≡ false
  fails : is_ready y m ≡ false

abbrev FailsAfter : ℕ → Option Result → Type 0
FailsAfter y none = Unit {0}
FailsAfter y (some r) = r.notifies ≡ false → is_ready y r.semaphor ≡ false

-- Another thread's step notifies it, or its test still fails.
act-FailsAfter :
    (a : Action) (m : Semaphor) (p : Place) (y : ℕ)
    → Blocked m y
    → waits_under p ≢ some y
    → FailsAfter y (act a m p)
unfolding act
act-FailsAfter tries m idle y b d = λ h. ground (arith, contains-is_empty y m.queue b.in_queue)
act-FailsAfter locks m idle y b d = λ h. ground (
  arith,
  is_front-push m.index y y m.queue b.in_queue,
  is_front-push m.index y m.index m.queue b.in_queue,
  is_front-contains m.index m.queue b.new_index,
)
act-FailsAfter wakes m (asleep x) y b d = λ h. b.fails
act-FailsAfter checks m (woken x) y b d =
    λ h. ground (arith, contains-pop_front x y m.queue b.in_queue)
act-FailsAfter releases m holding y b d =
    λ h. ground (arith, contains-is_empty y m.queue b.in_queue)
act-FailsAfter _ m _ y b d = tt

abbrev SleepsFailed : Option Result → Type 0
SleepsFailed none = Unit {0}
SleepsFailed (some r) = (y : ℕ) → r.place ≡ asleep y → is_ready y r.semaphor ≡ false

-- A thread goes to sleep only when its test has failed.
act-SleepsFailed : (a : Action) (m : Semaphor) (p : Place) → SleepsFailed (act a m p)
unfolding act
act-SleepsFailed tries m idle = λ y h. ground arith
act-SleepsFailed locks m idle = λ y h. ground arith
act-SleepsFailed wakes m (asleep x) = λ y h. ground arith
act-SleepsFailed checks m (woken x) = λ y h. ground arith
act-SleepsFailed releases m holding = λ y h. ground arith
act-SleepsFailed _ m _ = tt

record Orderly (n : ℕ) (s : System) : Type 0 where
  line : Line n s.semaphor.queue s.semaphor.index (λ i. waits_under (s.place i))
  sleeps : (i y : ℕ) → s.place i ≡ asleep y → is_ready y s.semaphor ≡ false

waits_under-after :
    (s : System) (i : ℕ) (r : Result)
    → put (λ j. waits_under (s.place j)) i (waits_under r.place)
      ≡ (λ j. waits_under ((after s i r).place j))
unfolding after
waits_under-after s i r = fun_ext (λ j. ground arith)

wake-asleep : (p : Place) (y : ℕ) → wake p ≢ asleep y
wake-asleep p y h = ground arith

after-notified :
    (s : System) (i j : ℕ) (r : Result)
    → r.notifies ≡ true
    → (after s i r).place j ≡ wake (put s.place i r.place j)
unfolding after
after-notified s i j r e = rw e refl

after-quiet :
    (s : System) (i j : ℕ) (r : Result)
    → r.notifies ≡ false
    → (after s i r).place j ≡ put s.place i r.place j
unfolding after
after-quiet s i j r e = rw e refl

sleeper-Blocked :
    {n : ℕ} (s : System) (j y : ℕ) → Orderly n s → s.place j ≡ asleep y → Blocked s.semaphor y
sleeper-Blocked s j y o h =
    let present = o.line.queued j y (ap waits_under h) in
    record {
      in_queue = present;
      older = o.line.small y present;
      new_index = ground (arith, o.line.small s.semaphor.index);
      fails = o.sleeps j y h;
    }

Step-sleeps :
    {n : ℕ} (s : System) (i : ℕ) (a : Action) (r : Result)
    → Orderly n s
    → act a s.semaphor (s.place i) ≡ some r
    → (j y : ℕ) → (after s i r).place j ≡ asleep y
    → is_ready y r.semaphor ≡ false
Step-sleeps s i a r o e j y h = elim (Bool-cases r.notifies) [
  | inl q ↦ absurd (wake-asleep (put s.place i r.place j) y (sym (after-notified s i j r q) ∙ h))
  | inr q ↦
      let quiet : put s.place i r.place j ≡ asleep y = sym (after-quiet s i j r q) ∙ h in
      elim (ℕ_discrete j i) [
        | yes same ↦
            subst SleepsFailed e (act-SleepsFailed a s.semaphor (s.place i)) y
              (ground (arith, quiet))
        | no other ↦
            let at : s.place j ≡ asleep y = ground (arith, quiet) in
            subst (FailsAfter y) e
              (act-FailsAfter a s.semaphor (s.place i) y (sleeper-Blocked s j y o at)
                (λ g. other (o.line.alone j i y (ap waits_under at) g)))
              q
      ]
]

Step-Orderly : {n : ℕ} {s t : System} → Step n s t → Orderly n s → Orderly n t
Step-Orderly {n} {s} (moves i a r lt e) o = record {
  line =
      let w = λ (j : ℕ). waits_under (s.place j) in
      unfold after in
      subst (λ f. LineOf n r.semaphor f) (waits_under-after s i r)
        (subst (Lines n i w) e (act-Lines a s.semaphor (s.place i) i w lt o.line refl));
  sleeps = λ j y h. unfold after in Step-sleeps s i a r o e j y h;
}

init-Orderly : (n max : ℕ) → Orderly n (init max)
init-Orderly n max = record {
  line = record {
    small = λ x h. absurd (cc);
    distinct = tt;
    queued = λ i x h. absurd (cc);
    alone = λ i j x h g. absurd (cc);
    owned = λ x h. absurd (cc);
  };
  sleeps = λ i y h. absurd (cc);
}

Reach-Orderly : {n max : ℕ} {s : System} → Reach n max s → Orderly n s
Reach-Orderly {n} {max} start = init-Orderly n max
Reach-Orderly (later r st) = Step-Orderly st (Reach-Orderly r)

-- The thread at the front of the queue is awake, or all places are taken.
abbrev pub FrontRuns : ℕ → ℕ → System → Type 0
FrontRuns n max s =
    (j : ℕ) × (y : ℕ) × (j < n)
    × (is_front y s.semaphor.queue ≡ true)
    × ((s.place j ≡ woken y) ⊎ ((s.place j ≡ asleep y) × (count is_holding n s.place ≡ max)))

all_taken :
    {n max : ℕ} {s : System} (y : ℕ)
    → Reach n max s
    → is_front y s.semaphor.queue ≡ true
    → is_ready y s.semaphor ≡ false
    → count is_holding n s.place ≡ max
all_taken y r e h = ground (arith, holders-Reach r)

-- Whatever the threads do in whatever order: while a thread waits, one thread waits at the front of
-- the queue, and it is awake, or as many threads hold a place as the semaphore has been made for.
pub front-Reach :
    {n max : ℕ} {s : System} (i x : ℕ)
    → Reach n max s
    → waits_under (s.place i) ≡ some x
    → FrontRuns n max s
front-Reach {n} {max} {s} i x r h =
    let o = Reach-Orderly r in
    let (y, front, present) = front_of x s.semaphor.queue (o.line.queued i x h) in
    let (j, lt, w) = o.line.owned y present in turn o j y lt front (s.place j) refl w
  where
    turn :
        Orderly n s
        → (j y : ℕ) → j < n
        → is_front y s.semaphor.queue ≡ true
        → (p : Place) → s.place j ≡ p
        → waits_under p ≡ some y
        → FrontRuns n max s
    turn o j y lt front (woken z) e w =
        let same : z ≡ y = cc in (j, y, lt, front, inl (e ∙ ap woken same))
    turn o j y lt front (asleep z) e w =
        let same : z ≡ y = cc in
        let at : s.place j ≡ asleep y = e ∙ ap asleep same in
        (j, y, lt, front, inr (at, all_taken y r front (o.sleeps j y at)))
    turn o j y lt front _ e w = absurd (cc)
