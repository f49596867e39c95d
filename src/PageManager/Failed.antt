-- ===== src/PageManager/Failed.antt =====
-- StartFetch of PageManager.cpp and the handler of FetchPages: which pages are pending or have
-- failed.
use andromeda_desktop_client.Common.{
  ℕ, zero, suc, ◌+◌, ◌-◌, ◌≤◌, ◌≡◌, refl, ◌∙◌, not, ◌&&◌, ◌||◌, ltb, leb, List, [], ◌∷◌, ◌++◌,
  arith,
}
use andromeda_desktop_client.PageManager.{
  PageManager, in_range, is_fetch_pending, is_fetch_failed, forget_failures, start_fetch,
  add_failures, fail_fetch,
}

is_fetch_pending-append :
    (rs qs : List (ℕ × ℕ)) (i : ℕ)
    → is_fetch_pending (rs ++ qs) i ≡ (is_fetch_pending rs i || is_fetch_pending qs i)
unfolding is_fetch_pending
is_fetch_pending-append [] qs i = refl
is_fetch_pending-append (r ∷ rs) qs i = ground (arith, is_fetch_pending-append rs qs i)

is_fetch_failed-forget_failures :
    (index count i : ℕ) (failed : List ℕ)
    → is_fetch_failed (forget_failures index count failed) i
      ≡ (is_fetch_failed failed i && not (in_range i (index, count)))
unfolding is_fetch_failed forget_failures in_range
is_fetch_failed-forget_failures index count i [] = refl
is_fetch_failed-forget_failures index count i (f ∷ fs) =
    ground (arith, is_fetch_failed-forget_failures index count i fs)

is_fetch_failed-add_failures :
    (index count i : ℕ) (failed : List ℕ)
    → is_fetch_failed (add_failures index count failed) i
      ≡ (in_range i (index, count) || is_fetch_failed failed i)
unfolding is_fetch_failed add_failures in_range
is_fetch_failed-add_failures index zero i failed = ground arith
is_fetch_failed-add_failures index (suc count) i failed =
    ground (arith, is_fetch_failed-add_failures (suc index) count i failed)

-- StartFetch makes exactly the pages of its range pending, besides those that were, and forgets
-- exactly their failures.
pub start_fetch_lem :
    (m : PageManager) (index count i : ℕ)
    → (is_fetch_pending (start_fetch m index count).pending i
        ≡ (is_fetch_pending m.pending i || in_range i (index, count)))
      × (is_fetch_failed (start_fetch m index count).failed i
          ≡ (is_fetch_failed m.failed i && not (in_range i (index, count))))
unfolding start_fetch
start_fetch_lem m index count i = (
  is_fetch_pending-append m.pending ((index, count) ∷ []) i
      ∙ unfold is_fetch_pending in ground arith,
  is_fetch_failed-forget_failures index count i m.failed,
)

-- When a read throws, exactly the pages of its range that have not come yet have failed, besides
-- those that had. The read is at a page of its range or at its end.
pub fail_fetch_lem :
    (m : PageManager) (start count current i : ℕ)
    → start ≤ current
    → current ≤ start + count
    → is_fetch_failed (fail_fetch m start count current).failed i
      ≡ ((leb current i && ltb i (start + count)) || is_fetch_failed m.failed i)
unfolding fail_fetch
fail_fetch_lem m start count current i h k =
    is_fetch_failed-add_failures current (start + count - current) i m.failed
    ∙ unfold in_range in ground arith
