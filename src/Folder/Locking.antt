-- ===== src/Folder/Locking.antt =====
-- LockItems of Folder.cpp: the locks of all items, each by an attempt, from the start again after a
-- wait.
use andromeda_desktop_client.Common.{
  ℕ, zero, suc, ◌+◌, ◌≤◌, ◌<◌, ◌≡◌, sym, ◌∙◌, ap, Bool, true, false, if◌then◌else◌, List, [], ◌∷◌,
  ◌++◌, Option, none, some, inl, inr, arith, Bool-cases,
}
use mathlib.Core.List.{append_assoc, append-nil}
use andromeda_desktop_client.Folder.Names.{if_lem, Name}
use andromeda_desktop_client.Folder.{Item, Items}

-- One pass over the items: the locks that it has, or the item that another thread has locked.
pub data Pass : Type 0 where
  locked : List Name → Pass
  blocked : Name → Pass

unfoldable pub try_items : (Name → Bool) → List Name → Items → Pass
try_items busy locks [] = locked locks
try_items busy locks ((name, i) ∷ items) =
    let rest = try_items busy (locks ++ name ∷ []) items in if busy name then blocked name else rest

-- `wait` is which items are locked by others once the one that was waited for has been unlocked.
abbrev pub Wait : Type 0
Wait = Name → (Name → Bool) → Name → Bool

module _ (wait : Wait) (items : Items) where
  abbrev after_pass :
      ((Name → Bool) → Option (List Name)) → (Name → Bool) → Pass → Option (List Name)
  after_pass again busy (locked locks) = some locks
  after_pass again busy (blocked name) = again (wait name busy)

  unfoldable pub lock_items : ℕ → (Name → Bool) → Option (List Name)
  unfolding try_items
  lock_items zero busy = none
  lock_items (suc fuel) busy = after_pass (lock_items fuel) busy (try_items busy [] items)

abbrev pub names_of : Items → List Name
names_of [] = []
names_of ((name, i) ∷ items) = name ∷ names_of items

abbrev one_if : Bool → ℕ
one_if b = if b then 1 else 0

abbrev pub count_busy : (Name → Bool) → Items → ℕ
count_busy busy [] = 0
count_busy busy ((name, i) ∷ items) = one_if (busy name) + count_busy busy items

module _ (busy next : Name → Bool) (fewer : (n : Name) → next n ≡ true → busy n ≡ true) where
  one_le : (n : Name) → one_if (next n) ≤ one_if (busy n)
  one_le n = elim (Bool-cases (next n)) [
    | inl e ↦ rw (e, fewer n e) (omega arith)
    | inr e ↦ rw e (omega arith)
  ]

  count_le : (items : Items) → count_busy next items ≤ count_busy busy items
  count_le [] = omega arith
  count_le ((name, i) ∷ items) = omega (arith, one_le name, count_le items)

  -- A pass over the items has all of their locks, or has met one whose unlocking leaves fewer locked.
  abbrev Passes : List Name → Items → Pass → Type 0
  Passes locks items (locked l) = l ≡ locks ++ names_of items
  Passes locks items (blocked name) =
      (busy name ≡ true) × (next name ≡ false → count_busy next items < count_busy busy items)

  skip-Passes :
      (locks : List Name) (name : Name) (i : Item) (items : Items) (p : Pass)
      → Passes (locks ++ name ∷ []) items p
      → Passes locks ((name, i) ∷ items) p
  skip-Passes locks name i items (locked l) h = h ∙ append_assoc locks (name ∷ []) (names_of items)
  skip-Passes locks name i items (blocked n) (b, h) =
      (b, λ e. let lt = h e in omega (arith, lt, one_le name))

  try_items-Passes :
      (locks : List Name) (items : Items) → Passes locks items (try_items busy locks items)
  unfolding try_items
  try_items-Passes locks [] = sym (append-nil locks)
  try_items-Passes locks ((name, i) ∷ items) =
      if_lem (Passes locks ((name, i) ∷ items)) (busy name) _ _
        (λ b. (b, λ e. rw (b, e) (omega (arith, count_le items))))
        (λ b.
          skip-Passes locks name i items (try_items busy (locks ++ name ∷ []) items)
            (try_items-Passes (locks ++ name ∷ []) items))

module _ (wait : Wait) (items : Items)
    (fewer : (name : Name) (busy : Name → Bool) (n : Name)
      → wait name busy n ≡ true
      → busy n ≡ true)
    (unlocked : (name : Name) (busy : Name → Bool) → wait name busy name ≡ false) where
  -- LockItems ends with the locks of all items, after at most one wait for each item that others
  -- have locked when it starts: given that during a wait no other thread locks an item anew, and
  -- the item that is waited for is unlocked after it.
  pub lock_items-ends :
      (fuel : ℕ) (busy : Name → Bool)
      → count_busy busy items < fuel
      → lock_items wait items fuel busy ≡ some (names_of items)
  unfolding lock_items
  lock_items-ends zero busy h = absurd (omega (arith, h))
  lock_items-ends (suc fuel) busy h =
      go (try_items busy [] items)
        (λ name. try_items-Passes busy (wait name busy) (fewer name busy) [] items)
        (λ next lt. lock_items-ends fuel next lt)
    where
      go :
          (p : Pass)
          → ((name : Name) → Passes busy (wait name busy) (fewer name busy) [] items p)
          → ((next : Name → Bool)
              → count_busy next items < fuel
              → lock_items wait items fuel next ≡ some (names_of items))
          → after_pass wait items (lock_items wait items fuel) busy p ≡ some (names_of items)
      go (locked l) q ih = ap some (q [])
      go (blocked name) q ih =
          let lt = (q name).1 (unlocked name busy) in ih (wait name busy) (omega (arith, lt, h))
