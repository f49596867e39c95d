-- ===== src/Semaphor.antt =====
-- src/lib/andromeda/Semaphor.hpp: the semaphore's members, its operations, and threads that use it,
-- with the steps of SharedMutex: each stretch under mMutex is one step, and a wait ends the stretch.
pub mod Holders
pub mod Queued
pub mod Progress
mod Tests
use andromeda_desktop_client.Common.{
  ℕ, zero, suc, ◌+◌, ◌-◌, ◌<◌, ◌≡◌, Bool, true, false, not, ◌&&◌, if◌then◌else◌, ltb, ◌==◌, List,
  [], ◌∷◌, ◌++◌, Option, none, some,
}
use andromeda_desktop_client.Common.Threads.{put}
use andromeda_desktop_client.Common.Waiters.{is_empty, is_front, pop_front}

pub record Semaphor : Type 0 where
  pub queue : List ℕ
  pub index : ℕ
  pub available : ℕ
  pub max_count : ℕ

-- Where a thread stands.
pub data Place : Type 0 where
  idle : Place
  asleep : ℕ → Place
  woken : ℕ → Place
  holding : Place

-- The state, where the thread stands, and whether all sleeping threads are notified.
pub record Result : Type 0 where
  pub semaphor : Semaphor
  pub place : Place
  pub notifies : Bool

unfoldable pub try_lock : Semaphor → Result
try_lock m =
    if ltb 0 m.available && is_empty m.queue
    then record {
      semaphor = record m { available = m.available - 1 };
      place = holding;
      notifies = false;
    }
    else record { semaphor = m; place = idle; notifies = false }

-- One test of the waiting loop, and what follows the loop.
unfoldable pub check : ℕ → Semaphor → Result
check i m =
    if ltb 0 m.available && is_front i m.queue
    then record {
      semaphor = record m { queue = pop_front m.queue; available = m.available - 1 };
      place = holding;
      notifies = ltb 0 (m.available - 1) && not (is_empty (pop_front m.queue));
    }
    else record { semaphor = m; place = asleep i; notifies = false }

unfoldable pub lock : Semaphor → Result
unfolding check
lock m = check m.index (record m { queue = m.queue ++ m.index ∷ []; index = m.index + 1 })

unfoldable pub unlock : Semaphor → Result
unlock m = record {
  semaphor = record m { available = m.available + 1 };
  place = idle;
  notifies = not (is_empty m.queue);
}

-- What a thread may do next, by where it stands.
pub data Action : Type 0 where
  tries locks wakes checks releases : Action

unfoldable pub act : Action → Semaphor → Place → Option Result
unfolding try_lock lock check unlock
act tries m idle = some (try_lock m)
act locks m idle = some (lock m)
act wakes m (asleep i) = some (record { semaphor = m; place = woken i; notifies = false })
act checks m (woken i) = some (check i m)
act releases m holding = some (unlock m)
act _ m _ = none

-- notify_all.
abbrev pub wake : Place → Place
wake (asleep i) = woken i
wake p = p

pub record System : Type 0 where
  pub semaphor : Semaphor
  pub place : ℕ → Place

unfoldable pub after : System → ℕ → Result → System
after s i r = record {
  semaphor = r.semaphor;
  place = if r.notifies then (λ j. wake (put s.place i r.place j)) else put s.place i r.place;
}

-- The threads below `n` take their steps in any order.
pub data Step (n : ℕ) (s : System) : System → Type 0 where
  moves :
      (i : ℕ) (a : Action) (r : Result)
      → i < n
      → act a s.semaphor (s.place i) ≡ some r
      → Step n s (after s i r)

-- The constructor.
abbrev pub init : ℕ → System
init max = record {
  semaphor = record { queue = []; index = 0; available = max; max_count = max };
  place = λ i. idle;
}

pub data Reach (n max : ℕ) : System → Type 0 where
  start : Reach n max (init max)
  later : {s t : System} → Reach n max s → Step n s t → Reach n max t
