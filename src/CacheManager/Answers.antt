-- ===== src/CacheManager/Answers.antt =====
-- How a call of HandleMemory that may wait is answered (CacheManager.cpp).
use andromeda_desktop_client.Common.{
  ℕ, zero, suc, ◌≡◌, refl, sym, ◌∙◌, ap, ◌⊎◌, inl, inr, Bool, true, false, ◌&&◌, if◌then◌else◌,
  List, [], ◌∷◌, arith, Bool-cases, Option-cases,
}
use andromeda_desktop_client.OrderedMap
use andromeda_desktop_client.OrderedMap.{entries}
use andromeda_desktop_client.CacheManager.Tracking.{IsTracked}
use andromeda_desktop_client.CacheManager.{CacheManager, PageInfo, should_evict, should_skip_wait}
use andromeda_desktop_client.CacheManager.Handle.{
  backend, memory, Outcome, done, thrown, waiting, exhausted, and_then, PageManagers, evict_page,
  evict_victim, sync_evict, should_await_evict, await, Caller, handle_memory,
}
use andromeda_desktop_client.CacheManager.Ends.{Ends}
use andromeda_desktop_client.CacheManager.SyncEvict.{sync_evict-Ends}
use andromeda_desktop_client.CacheManager.Inform.{maybe-Ends}

-- One of the states that a wait ended in.
abbrev pub Woken : CacheManager → List CacheManager → Type 0
Woken c [] = ⊥
Woken c (w ∷ ws) = (c ≡ w) ⊎ Woken c ws

-- How a call that may wait ends: back with the memory within its limit or the wait to be skipped
-- for this manager; or with an exception of the backend, or of a failed cleanup while the memory is
-- over its limit, in a state that it woke up to; or waiting while it is over its limit and no failure is known.
abbrev pub Answers : ℕ → List CacheManager → Outcome → Type 0
Answers mgr ws (done c) = (should_evict c ≡ false) ⊎ (should_skip_wait c mgr ≡ true)
Answers mgr ws (thrown backend c) = Unit
Answers mgr ws (thrown memory c) = (should_evict c ≡ true) × (c.evict_failure ≡ true) × Woken c ws
Answers mgr ws (waiting c) =
    (should_evict c ≡ true) × (c.evict_failure ≡ false) × (should_skip_wait c mgr ≡ false)
Answers mgr ws exhausted = ⊥

later :
    (mgr : ℕ) (c : CacheManager) (ws : List CacheManager) (o : Outcome)
    → Answers mgr ws o
    → Answers mgr (c ∷ ws) o
later mgr c ws (done d) h = h
later mgr c ws (thrown backend d) h = h
later mgr c ws (thrown memory d) (over, failed, woken) = (over, failed, inr woken)
later mgr c ws (waiting d) h = h
later mgr c ws exhausted h = h

not_at_start :
    (mgr : ℕ) (c : CacheManager) (ws : List CacheManager) (o : Outcome)
    → c.evict_failure ≡ false
    → Answers mgr (c ∷ ws) o
    → Answers mgr ws o
not_at_start mgr c ws (done d) e h = h
not_at_start mgr c ws (thrown backend d) e h = h
not_at_start mgr c ws (thrown memory d) e (over, failed, inl same) =
    absurd (no_failure (sym failed ∙ ap (λ (x : CacheManager). x.evict_failure) same ∙ e))
  where
    no_failure : true ≡ false → ⊥
    no_failure p = ground arith
not_at_start mgr c ws (thrown memory d) e (over, failed, inr woken) = (over, failed, woken)
not_at_start mgr c ws (waiting d) e h = h
not_at_start mgr c ws exhausted e h = h

-- The state that the wait starts in counts as one that it woke up to.
await-FromStart :
    (mgr : ℕ) (c : CacheManager) (ws : List CacheManager)
    → Answers mgr (c ∷ ws) (await (λ x. should_await_evict x mgr) c ws)
unfolding await should_await_evict
await-FromStart mgr c [] = ground arith
await-FromStart mgr c (w ∷ ws) = ground (
  arith,
  later mgr c (w ∷ ws) (await (λ x. should_await_evict x mgr) w ws) (await-FromStart mgr w ws),
)

pub await-Answers :
    (mgr : ℕ) (c : CacheManager) (ws : List CacheManager)
    → c.evict_failure ≡ false
    → Answers mgr ws (await (λ x. should_await_evict x mgr) c ws)
await-Answers mgr c ws e =
    not_at_start mgr c ws (await (λ x. should_await_evict x mgr) c ws) e (await-FromStart mgr c ws)

-- A synchronous eviction throws nothing but the backend's exception.
abbrev pub Synchronous : Outcome → Type 0
Synchronous (done c) = Unit
Synchronous (thrown backend c) = Unit
Synchronous (thrown memory c) = ⊥
Synchronous (waiting c) = ⊥
Synchronous exhausted = Unit

pub evict_page-Synchronous :
    (m : PageManagers) (c : CacheManager) (e : ℕ × PageInfo) → Synchronous (evict_page m c e)
unfolding evict_page
evict_page-Synchronous m c e = elim (Bool-cases (m.evicted c e).1) [
  | inl p ↦ rw (p, evict_page) tt
  | inr p ↦ rw (p, evict_page) tt
]

pub sync_evict-Synchronous :
    (m : PageManagers) (mgr page fuel : ℕ) (c : CacheManager)
    → Synchronous (sync_evict m mgr page fuel c)
unfolding sync_evict
sync_evict-Synchronous m mgr page zero c = tt
sync_evict-Synchronous m mgr page (suc fuel) c = elim (Option-cases (evict_victim c mgr page)) [
  | inl e ↦ rw (e, sync_evict) tt
  | inr (x, e) ↦
      rw (e, sync_evict)
        (next (evict_page m c x) (evict_page-Synchronous m c x)
          (λ d. sync_evict-Synchronous m mgr page fuel d))
]
  where
    next :
        (o : Outcome)
        → Synchronous o
        → ((d : CacheManager) → Synchronous (sync_evict m mgr page fuel d))
        → Synchronous (and_then o (λ d. sync_evict m mgr page fuel d))
    next (done d) s k = k d
    next (thrown backend d) s k = s
    next (thrown memory d) s k = absurd s
    next (waiting d) s k = absurd s
    next exhausted s k = s

pub Answers-after :
    (mgr : ℕ) (ws : List CacheManager) (o : Outcome) (f : CacheManager → Outcome)
    → Synchronous o
    → Ends IsTracked o
    → ((d : CacheManager) → Answers mgr ws (f d))
    → Answers mgr ws (and_then o f)
Answers-after mgr ws (done d) f s h k = k d
Answers-after mgr ws (thrown backend d) f s h k = tt
Answers-after mgr ws (thrown memory d) f s h k = absurd s
Answers-after mgr ws (waiting d) f s h k = absurd s
Answers-after mgr ws exhausted f s h k = h

-- A call of HandleMemory that may wait, while the evict thread runs, returns only with the memory
-- within its limit or the wait skipped for its manager; throws a MemoryException only in a state
-- that it woke up to, with the memory over its limit and a failed eviction noted since the call
-- forgot the earlier ones; and waits on only when the memory is over its limit, no failure is known
-- and its wait is not skipped.
pub handle_memory-Answers :
    (m : PageManagers) (r : Caller) (c : CacheManager)
    → r.can_wait ≡ true
    → r.thread_runs ≡ true
    → IsTracked c
    → Answers r.manager r.wakes (handle_memory m r c)
unfolding handle_memory
handle_memory-Answers m r c w t v =
    rw (w, handle_memory)
      (rw (t, handle_memory)
        (Answers-after r.manager r.wakes _ _ (sync_case r.has_lock)
          (maybe-Ends IsTracked (r.has_lock && true) _ c
            (sync_evict-Ends m r.manager r.page _ c (omega arith) v) v)
          (λ d. await-Answers r.manager (record d { evict_failure = false }) r.wakes refl)))
  where
    sync_case :
        (b : Bool)
        → Synchronous (
            if b && true
            then sync_evict m r.manager r.page (suc (OrderedMap.size c.page_queue)) c
            else done c)
    sync_case true = sync_evict-Synchronous m r.manager r.page _ c
    sync_case false = tt
