-- ===== src/OrderedMap/Tests.antt =====
-- Tests of the model of OrderedMap.hpp, and its theorems at concrete maps.
use andromeda_desktop_client.Common.{ℕ, ◌≡◌, refl, [], ◌∷◌, none, ℕ_discrete}
use andromeda_desktop_client.OrderedMap.Store.{table_find, table_set, table_erase, node_erase}
use andromeda_desktop_client.OrderedMap.Invariant.{
  IsLinked, Reachable, start, next, enqueues_front, enqueues_back, pops, Reachable-IsLinked,
}
use andromeda_desktop_client.OrderedMap.Spec.{Refines, IsLinked-Refines}
use andromeda_desktop_client.OrderedMap.{
  Impl, OrderedMap, pair_impl, self_impl, entries, empty_map, find, erase, pop, enqueue_front,
  enqueue_back, from_list,
}

abbrev numbers : Impl ℕ ℕ (ℕ × ℕ)
numbers = pair_impl ℕ_discrete

-- As in the unit test: 3 and then 5 at the front, 7 at the back.
abbrev one_entry : OrderedMap ℕ (ℕ × ℕ)
one_entry = enqueue_front numbers empty_map (3, 30)

abbrev two_entries : OrderedMap ℕ (ℕ × ℕ)
two_entries = enqueue_front numbers one_entry (5, 50)

abbrev three_entries : OrderedMap ℕ (ℕ × ℕ)
three_entries = enqueue_back numbers two_entries (7, 70)

three_entries_order : entries three_entries ≡ (5, 50) ∷ (3, 30) ∷ (7, 70) ∷ []
unfolding enqueue_front enqueue_back empty_map
three_entries_order = refl

erase_middle : entries (erase numbers three_entries 3).0 ≡ (5, 50) ∷ (7, 70) ∷ []
unfolding erase enqueue_front enqueue_back empty_map table_find table_set table_erase node_erase
    ℕ_discrete
erase_middle = refl

hashed_queue :
    entries (from_list (self_impl ℕ_discrete) empty_map (4 ∷ 2 ∷ 9 ∷ [])) ≡ 4 ∷ 2 ∷ 9 ∷ []
unfolding from_list empty_map
hashed_queue = refl

absent_3 : find numbers empty_map 3 ≡ none
unfolding find empty_map table_find
absent_3 = refl

absent_5 : find numbers one_entry 5 ≡ none
unfolding find enqueue_front empty_map table_find table_set table_erase ℕ_discrete
absent_5 = refl

absent_7 : find numbers two_entries 7 ≡ none
unfolding find enqueue_front empty_map table_find table_set table_erase ℕ_discrete
absent_7 = refl

three_entries-Reachable : Reachable numbers three_entries
three_entries-Reachable =
    next (next (next start (enqueues_front (3, 30) absent_3)) (enqueues_front (5, 50) absent_5))
      (enqueues_back (7, 70) absent_7)

three_entries-IsLinked : IsLinked numbers three_entries
three_entries-IsLinked = Reachable-IsLinked numbers three_entries-Reachable

two_entries-IsLinked : IsLinked numbers two_entries
two_entries-IsLinked =
    Reachable-IsLinked numbers
      (next (next start (enqueues_front (3, 30) absent_3)) (enqueues_front (5, 50) absent_5))

Reachable-IsLinked_example : IsLinked numbers (pop numbers three_entries 3).0
Reachable-IsLinked_example = Reachable-IsLinked numbers (next three_entries-Reachable (pops 3))

IsLinked-Refines_example : Refines numbers three_entries 3
IsLinked-Refines_example = IsLinked-Refines numbers three_entries 3 three_entries-IsLinked
