-- ===== src/CacheManager/Ends.antt =====
-- What it takes for a call to end well, and what removing many pages keeps (CacheManager.cpp).
use andromeda_desktop_client.Common.{ℕ, ◌≡◌, refl, ◌∙◌, List, [], ◌∷◌, arith}
use andromeda_desktop_client.CacheManager.Tracking.{IsTracked, remove_dirty-IsTracked}
use andromeda_desktop_client.CacheManager.{CacheManager, remove_dirty}
use andromeda_desktop_client.CacheManager.Handle.{
  Outcome, done, thrown, waiting, exhausted, and_then, remove_dirties,
}

-- The state in which a call ends has the property; and the bound on the loops is never used up.
abbrev pub Ends : (CacheManager → Type 0) → Outcome → Type 0
Ends P (done c) = P c
Ends P (thrown e c) = P c
Ends P (waiting c) = P c
Ends P exhausted = ⊥

pub Ends-and_then :
    (P Q : CacheManager → Type 0) (o : Outcome) (f : CacheManager → Outcome)
    → ((c : CacheManager) → P c → Q c)
    → Ends P o
    → ((c : CacheManager) → P c → Ends Q (f c))
    → Ends Q (and_then o f)
Ends-and_then P Q (done c) f w h k = k c h
Ends-and_then P Q (thrown e c) f w h k = w c h
Ends-and_then P Q (waiting c) f w h k = w c h
Ends-and_then P Q exhausted f w h k = h

pub remove_dirties-IsTracked :
    (c : CacheManager) (ps : List ℕ) → IsTracked c → IsTracked (remove_dirties c ps)
unfolding remove_dirties
remove_dirties-IsTracked c [] v = v
remove_dirties-IsTracked c (p ∷ ps) v =
    remove_dirties-IsTracked (remove_dirty c p) ps (remove_dirty-IsTracked p v)

pub remove_dirty-page_queue :
    (c : CacheManager) (p : ℕ) → (remove_dirty c p).page_queue ≡ c.page_queue
unfolding remove_dirty
remove_dirty-page_queue c p = ground arith

pub remove_dirties-page_queue :
    (c : CacheManager) (ps : List ℕ) → (remove_dirties c ps).page_queue ≡ c.page_queue
unfolding remove_dirties
remove_dirties-page_queue c [] = refl
remove_dirties-page_queue c (p ∷ ps) =
    remove_dirties-page_queue (remove_dirty c p) ps ∙ remove_dirty-page_queue c p
