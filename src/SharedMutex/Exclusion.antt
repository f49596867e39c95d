-- ===== src/SharedMutex/Exclusion.antt =====
-- Who holds a SharedMutex, by counting the threads.
use andromeda_desktop_client.Common.{
  ℕ, ◌+◌, ◌<◌, ◌≡◌, ◌≢◌, refl, sym, ap, Bool, true, false, not, ◌==◌, some, inl, inr, arith,
  ℕ_discrete, Bool-cases,
}
use andromeda_desktop_client.Common.Threads.{
  put, one_if, count, count-put, count_pos, count_two, count_same, count_none,
}
use andromeda_desktop_client.SharedMutex.{
  SharedMutex, Place, idle, writing, reading, Result, Action, act, wake, System, after, Step, moves,
  init, Reach, start, later,
}

abbrev pub is_writing : Place → Bool
is_writing writing = true
is_writing p = false

abbrev pub is_reading : Place → Bool
is_reading reading = true
is_reading p = false

pub record Held (n : ℕ) (m : SharedMutex) (place : ℕ → Place) : Type 0 where
  pub readers : m.readers ≡ count is_reading n place
  pub holders : count is_writing n place + one_if (not (m.readers == 0)) ≡ one_if m.locked

-- One action, given the numbers of writing and reading threads before and after it.
act-counts :
    (a : Action) (m : SharedMutex) (p : Place) (x : Result) (w w' r r' : ℕ)
    → act a m p ≡ some x
    → m.readers ≡ r
    → w + one_if (not (m.readers == 0)) ≡ one_if m.locked
    → (is_writing p ≡ true → 0 < w)
    → (is_reading p ≡ true → 0 < r)
    → w' + one_if (is_writing p) ≡ w + one_if (is_writing x.place)
    → r' + one_if (is_reading p) ≡ r + one_if (is_reading x.place)
    → (x.mutex.readers ≡ r') × (w' + one_if (not (x.mutex.readers == 0)) ≡ one_if x.mutex.locked)
unfolding act
act-counts a m p x w w' r r' e h k f g c d = ground arith

count-after :
    (p : Place → Bool) (n i : ℕ) (s : System) (x : Result)
    → ((q : Place) → p (wake q) ≡ p q)
    → i < n
    → count p n (after s i x).place + one_if (p (s.place i))
      ≡ count p n s.place + one_if (p x.place)
unfolding after
count-after p n i s x h lt = elim (Bool-cases x.notifies) [
  | inr e ↦ rw e (count-put p n i s.place x.place lt)
  | inl e ↦ rw e (
      omega (
        arith,
        count_same p n (λ j. wake (put s.place i x.place j)) (put s.place i x.place)
            (λ j. h (put s.place i x.place j)),
        count-put p n i s.place x.place lt,
      ))
]

is_writing-wake : (q : Place) → is_writing (wake q) ≡ is_writing q
is_writing-wake q = ground arith

is_reading-wake : (q : Place) → is_reading (wake q) ≡ is_reading q
is_reading-wake q = ground arith

pub Step-Held :
    {n : ℕ} {s t : System} → Step n s t → Held n s.mutex s.place → Held n t.mutex t.place
Step-Held {n} {s} (moves i a x lt e) h =
    let c =
      act-counts a s.mutex (s.place i) x (count is_writing n s.place)
        (count is_writing n (after s i x).place) (count is_reading n s.place)
        (count is_reading n (after s i x).place) e h.readers h.holders
        (count_pos is_writing n i s.place lt) (count_pos is_reading n i s.place lt)
        (count-after is_writing n i s x is_writing-wake lt)
        (count-after is_reading n i s x is_reading-wake lt) in
    unfold after in record { readers = unfold after in c.0; holders = unfold after in c.1 }

init-Held : (n : ℕ) → Held n init.mutex init.place
init-Held n = record {
  readers = sym (count_none is_reading n idle refl);
  holders = omega (arith, count_none is_writing n idle refl);
}

pub Reach-Held : {n : ℕ} {s : System} → Reach n s → Held n s.mutex s.place
Reach-Held {n} start = init-Held n
Reach-Held (later r st) = Step-Held st (Reach-Held r)

-- Whatever the threads do in whatever order: while a thread has the lock exclusively, no other
-- thread has it exclusively and none has it shared.
pub exclusive-Reach :
    {n : ℕ} {s : System} (i j : ℕ)
    → Reach n s
    → i < n
    → j < n
    → s.place i ≡ writing
    → (s.place j ≢ reading) × (s.place j ≡ writing → i ≡ j)
exclusive-Reach {n} {s} i j r lt lj e =
    let h = Reach-Held r in
    let one = count_pos is_writing n i s.place lt (ap is_writing e) in
    (
      λ q.
          let some_reader = count_pos is_reading n j s.place lj (ap is_reading q) in
          absurd (ground (arith, h.readers, h.holders, one, some_reader)),
      λ q. elim (ℕ_discrete i j) [
        | yes same ↦ same
        | no other ↦ absurd (
            ground (
              arith,
              h.holders,
              count_two is_writing n i j s.place lt lj other (ap is_writing e) (ap is_writing q),
            ))
      ],
    )
