-- ===== src/SharedMutex/Tests.antt =====
-- Tests of the model of SharedMutex.hpp, and its theorems at a state that threads reach.
use andromeda_desktop_client.Common.{ℕ, ◌≡◌, ◌≢◌, refl, true, false, [], ◌∷◌, arith}
use andromeda_desktop_client.SharedMutex.{
  reading, writing, asleep, for_write, writes, act, System, after, moves, init, Reach, start, later,
  Result,
}
use andromeda_desktop_client.SharedMutex.Exclusion.{exclusive-Reach}
use andromeda_desktop_client.SharedMutex.Progress.{HasTurn, waiting-Reach}

-- Thread 0 writes; thread 1 waits to write.
abbrev first : Result
first = record {
  mutex = record { queue = []; index = 1; readers = 0; locked = true };
  place = writing;
  notifies = false;
}

abbrev second : Result
second = record {
  mutex = record { queue = 1 ∷ []; index = 2; readers = 0; locked = true };
  place = asleep for_write 1;
  notifies = false;
}

abbrev contended : System
contended = after (after init 0 first) 1 second

contended-Reach : Reach 2 contended
unfolding act after
contended-Reach =
    later (later start (moves 0 writes first (omega arith) refl))
      (moves 1 writes second (omega arith) refl)

exclusive-Reach_example :
    (contended.place 1 ≢ reading) × (contended.place 1 ≡ writing → ◌≡◌ {A = ℕ} 0 1)
unfolding after
exclusive-Reach_example = exclusive-Reach 0 1 contended-Reach (omega arith) (omega arith) refl

waiting-Reach_example : HasTurn 2 contended
unfolding after
waiting-Reach_example = waiting-Reach 1 1 contended-Reach refl
