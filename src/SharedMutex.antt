-- ===== src/SharedMutex.antt =====
-- src/lib/andromeda/SharedMutex.hpp: the lock's members, its operations, and threads that use it.
-- Each stretch of an operation under mMutex is one step; a wait ends the stretch, and the thread
-- sleeps until it is notified or wakes by itself. The index of a waiter is unbounded: it would wrap
-- after 2^64 waits.
pub mod Exclusion
pub mod Queued
pub mod Progress
mod Tests
use andromeda_desktop_client.Common.{
  ℕ, zero, suc, ◌+◌, ◌-◌, ◌<◌, ◌≡◌, Bool, true, false, not, ◌&&◌, ◌||◌, if◌then◌else◌, ltb, ◌==◌,
  List, [], ◌∷◌, ◌++◌, Option, none, some,
}
use andromeda_desktop_client.Common.Threads.{put}
use andromeda_desktop_client.Common.Waiters.{is_empty, is_front, pop_front}

pub record SharedMutex : Type 0 where
  pub queue : List ℕ
  pub index : ℕ
  pub readers : ℕ
  pub locked : Bool

pub data Kind : Type 0 where
  for_write for_read : Kind

-- Where a thread stands.
pub data Place : Type 0 where
  idle : Place
  asleep : Kind → ℕ → Place
  woken : Kind → ℕ → Place
  writing : Place
  reading : Place

-- The state, where the thread stands, and whether all sleeping threads are notified.
pub record Result : Type 0 where
  pub mutex : SharedMutex
  pub place : Place
  pub notifies : Bool

unfoldable pub try_lock : SharedMutex → Result
try_lock m =
    if not m.locked && is_empty m.queue
    then record { mutex = record m { locked = true }; place = writing; notifies = false }
    else record { mutex = m; place = idle; notifies = false }

-- The conditions that end the loops of lock and lock_shared.
unfoldable pub is_ready : Kind → ℕ → SharedMutex → Bool
is_ready for_write i m = not (m.locked || not (is_front i m.queue))
is_ready for_read i m = not ((m.readers == 0 && m.locked) || not (is_front i m.queue))

-- What follows the loops.
unfoldable pub take : Kind → SharedMutex → Result
take for_write m = record {
  mutex = record m { queue = pop_front m.queue; locked = true };
  place = writing;
  notifies = false;
}
take for_read m = record {
  mutex = record m {
    queue = pop_front m.queue;
    readers = m.readers + 1;
    locked = if m.readers == 0 then true else m.locked;
  };
  place = reading;
  notifies = not (is_empty (pop_front m.queue));
}

-- One test of a waiting loop.
unfoldable pub check : Kind → ℕ → SharedMutex → Result
unfolding is_ready take
check k i m =
    if is_ready k i m then take k m else record { mutex = m; place = asleep k i; notifies = false }

unfoldable pub push_back : SharedMutex → SharedMutex
push_back m = record m { queue = m.queue ++ m.index ∷ []; index = m.index + 1 }

unfoldable pub push_front : SharedMutex → SharedMutex
push_front m = record m { queue = m.index ∷ m.queue; index = m.index + 1 }

unfoldable pub lock : SharedMutex → Result
unfolding check push_back
lock m = check for_write m.index (push_back m)

unfoldable pub lock_shared : Bool → SharedMutex → Result
unfolding check push_back push_front
lock_shared priority m =
    if priority && ltb 0 m.readers
    then record { mutex = record m { readers = m.readers + 1 }; place = reading; notifies = false }
    else check for_read m.index (if priority then push_front m else push_back m)

unfoldable pub unlock : SharedMutex → Result
unlock m = record {
  mutex = record m { locked = false };
  place = idle;
  notifies = not (is_empty m.queue);
}

unfoldable pub unlock_shared : SharedMutex → Result
unlock_shared m = record {
  mutex = record m {
    readers = m.readers - 1;
    locked = if m.readers - 1 == 0 then false else m.locked;
  };
  place = idle;
  notifies = not (is_empty m.queue);
}

-- What a thread may do next, by where it stands.
pub data Action : Type 0 where
  tries writes reads reads_first wakes checks releases : Action

unfoldable pub act : Action → SharedMutex → Place → Option Result
unfolding try_lock lock lock_shared check unlock unlock_shared
act tries m idle = some (try_lock m)
act writes m idle = some (lock m)
act reads m idle = some (lock_shared false m)
act reads_first m idle = some (lock_shared true m)
act wakes m (asleep k i) = some (record { mutex = m; place = woken k i; notifies = false })
act checks m (woken k i) = some (check k i m)
act releases m writing = some (unlock m)
act releases m reading = some (unlock_shared m)
act _ m _ = none

-- notify_all.
abbrev pub wake : Place → Place
wake (asleep k i) = woken k i
wake p = p

pub record System : Type 0 where
  pub mutex : SharedMutex
  pub place : ℕ → Place

unfoldable pub after : System → ℕ → Result → System
after s i r = record {
  mutex = r.mutex;
  place = if r.notifies then (λ j. wake (put s.place i r.place j)) else put s.place i r.place;
}

-- The threads below `n` take their steps in any order.
pub data Step (n : ℕ) (s : System) : System → Type 0 where
  moves :
      (i : ℕ) (a : Action) (r : Result)
      → i < n
      → act a s.mutex (s.place i) ≡ some r
      → Step n s (after s i r)

abbrev pub init : System
init = record {
  mutex = record { queue = []; index = 0; readers = 0; locked = false };
  place = λ i. idle;
}

pub data Reach (n : ℕ) : System → Type 0 where
  start : Reach n init
  later : {s t : System} → Reach n s → Step n s t → Reach n t
