-- ===== src/Semaphor/Tests.antt =====
-- Tests of the model of Semaphor.hpp, and its theorem at a state that threads reach.
use andromeda_desktop_client.Common.{refl, false, [], ◌∷◌, arith}
use andromeda_desktop_client.Semaphor.{
  holding, asleep, locks, act, System, after, moves, init, Reach, start, later, Result,
}
use andromeda_desktop_client.Semaphor.Progress.{FrontRuns, front-Reach}

-- One place; thread 0 holds it, and thread 1 waits.
abbrev first : Result
first = record {
  semaphor = record { queue = []; index = 1; available = 0; max_count = 1 };
  place = holding;
  notifies = false;
}

abbrev second : Result
second = record {
  semaphor = record { queue = 1 ∷ []; index = 2; available = 0; max_count = 1 };
  place = asleep 1;
  notifies = false;
}

abbrev contended : System
contended = after (after (init 1) 0 first) 1 second

contended-Reach : Reach 2 1 contended
unfolding act after
contended-Reach =
    later (later start (moves 0 locks first (omega arith) refl))
      (moves 1 locks second (omega arith) refl)

front-Reach_example : FrontRuns 2 1 contended
unfolding after
front-Reach_example = front-Reach 1 1 contended-Reach refl
