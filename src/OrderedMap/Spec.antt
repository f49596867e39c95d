-- ===== src/OrderedMap/Spec.antt =====
-- What OrderedMap.hpp promises: the operations act on the plain list of the entries in order.
use mathlib.Core.Option
use andromeda_desktop_client.Common.{
  ℕ, ◌≡◌, refl, ite, sym, ◌∙◌, List, [], ◌∷◌, ◌++◌, Option, none, some, false, arith, Option-cases,
  inl, inr, ◌↔◌, ◌⊎◌, ◌≢◌,
}
use andromeda_desktop_client.OrderedMap.Store.{
  Node, table_find, node_find, node_erase, last_node, first_node, entries_of,
}
use andromeda_desktop_client.OrderedMap.Invariant.{
  address_of, Distinct, IsLinked, node_find_of_address,
}
use andromeda_desktop_client.OrderedMap.{
  Impl, OrderedMap, entries, find, exists, erase_iterator, erase, pop, pop_front, pop_back,
}

module _ {K V E : Type 0} (m : Impl K V E) where
  open m use {get_key, get_value, key_discrete as dec}

  -- The specification: the first entry with a key, and the list without it.
  unfoldable pub entry_of : K → List E → Option E
  entry_of k [] = none
  entry_of k (e ∷ es) = ite (dec (get_key e) k) (some e) (entry_of k es)

  unfoldable pub without : K → List E → List E
  without k [] = []
  without k (e ∷ es) = ite (dec (get_key e) k) es (e ∷ without k es)

  -- The entry behind the address of a key.
  node_find-address :
      (k : K) (a : ℕ) (q : List (Node E))
      → Distinct m q
      → address_of m k q ≡ some a
      → node_find a q ≡ entry_of k (entries_of q)
  unfolding address_of node_find entry_of
  node_find-address k a [] d h = cc
  node_find-address k a (n ∷ q) d h =
      ground (arith, node_find-address k a q d.2, node_find_of_address m k a q)

  last_node_found :
      (q : List (Node E)) (n : Node E) → last_node q ≡ some n → node_find n.address q ≢ none
  unfolding last_node node_find
  last_node_found [] n h = cc
  last_node_found (x ∷ []) n h = ground arith
  last_node_found (x ∷ y ∷ q) n h = ground (arith, last_node_found (y ∷ q) n)

  last_node-none : (q : List (Node E)) → last_node q ≡ none → entries_of q ≡ []
  unfolding last_node
  last_node-none [] h = refl
  last_node-none (x ∷ []) h = absurd (cc)
  last_node-none (x ∷ y ∷ q) h = absurd (ground (arith, last_node-none (y ∷ q) h))

  first_node-none : (q : List (Node E)) → first_node q ≡ none → entries_of q ≡ []
  unfolding first_node
  first_node-none [] h = refl
  first_node-none (x ∷ q) h = absurd (cc)

  pub entry_of_absent :
      (k : K) (q : List (Node E)) → address_of m k q ≡ none → entry_of k (entries_of q) ≡ none
  unfolding address_of entry_of
  entry_of_absent k [] h = refl
  entry_of_absent k (n ∷ q) h = ground (arith, entry_of_absent k q)

  entry_of_present :
      (k : K) (a : ℕ) (q : List (Node E))
      → address_of m k q ≡ some a
      → (e : E) × (entry_of k (entries_of q) ≡ some e)
  unfolding address_of entry_of
  entry_of_present k a [] h = absurd (cc)
  entry_of_present k a (n ∷ q) h = elim (dec (get_key n.entry) k) [
    | yes p ↦ (n.entry, ground arith)
    | no p ↦ let (e, q') = entry_of_present k a q (ground arith) in (e, ground arith)
  ]

  entries-node_erase :
      (k : K) (a : ℕ) (q : List (Node E))
      → Distinct m q
      → address_of m k q ≡ some a
      → entries_of (node_erase a q) ≡ without k (entries_of q)
  unfolding address_of node_erase without
  entries-node_erase k a [] d h = refl
  entries-node_erase k a (n ∷ q) d h =
      ground (arith, entries-node_erase k a q d.2, node_find_of_address m k a q)

  without_absent :
      (k : K) (q : List (Node E))
      → address_of m k q ≡ none
      → without k (entries_of q) ≡ entries_of q
  unfolding address_of without
  without_absent k [] h = refl
  without_absent k (n ∷ q) h = ground (arith, without_absent k q)

  -- find and exists in a linked map answer for the first entry of the ordered list with the key,
  -- and each of them misses exactly when there is none.
  pub find-entry_of :
      {s : OrderedMap K E} (k : K)
      → IsLinked m s
      → (find m s k ≡ entry_of k (entries s))
        × ((exists m s k ≡ false) ↔ (entry_of k (entries s) ≡ none))
  unfolding find exists
  find-entry_of {s} k v = elim (Option-cases (table_find dec k s.lookup)) [
    | inl e ↦
        let p = entry_of_absent k s.queue (sym (v.linked k) ∙ e) in
        (ground arith, (λ _. p, λ _. ground arith))
    | inr (a, e) ↦
        let h : address_of m k s.queue ≡ some a = sym (v.linked k) ∙ e in
        let (x, p) = entry_of_present k a s.queue h in
        (
          ground (arith, node_find-address k a s.queue v.distinct h),
          (λ f. absurd (ground arith), λ f. absurd (cc)),
        )
  ]

  -- erase by key removes the first entry with the key from the ordered list, keeps all others in
  -- their order, and reports whether there was one.
  pub erase-without :
      {s : OrderedMap K E} (k : K)
      → IsLinked m s
      → (entries (erase m s k).0 ≡ without k (entries s)) × ((erase m s k).1 ≡ exists m s k)
  unfolding erase exists
  erase-without {s} k v = elim (Option-cases (table_find dec k s.lookup)) [
    | inl e ↦ (ground (arith, without_absent k s.queue (sym (v.linked k) ∙ e)), ground arith)
    | inr (a, e) ↦ (
      ground (arith, entries-node_erase k a s.queue v.distinct (sym (v.linked k) ∙ e)),
      ground arith,
    )
  ]

  last_node-erase :
      (q : List (Node E)) (n : Node E)
      → Distinct m q
      → last_node q ≡ some n
      → entries_of q ≡ entries_of (node_erase n.address q) ++ n.entry ∷ []
  unfolding last_node node_erase
  last_node-erase [] n d h = absurd (cc)
  last_node-erase (x ∷ []) n d h = ground arith
  last_node-erase (x ∷ y ∷ q) n d h =
      ground (arith, last_node-erase (y ∷ q) n d.2, last_node_found (y ∷ q) n h)

  first_node-erase :
      (q : List (Node E)) (n : Node E)
      → first_node q ≡ some n
      → entries_of q ≡ n.entry ∷ entries_of (node_erase n.address q)
  unfolding first_node node_erase
  first_node-erase [] n h = absurd (cc)
  first_node-erase (x ∷ q) n h = ground arith

  -- pop_back fails on the empty list only, and otherwise takes exactly the last entry off.
  pub pop_back-split :
      (s : OrderedMap K E)
      → IsLinked m s
      → ((entries s ≡ []) × (pop_back m s ≡ none))
        ⊎ ((e : E) × (t : OrderedMap K E) × (pop_back m s ≡ some (e, t))
            × (entries s ≡ entries t ++ e ∷ []))
  unfolding pop_back erase_iterator
  pop_back-split s v = elim (Option-cases (last_node s.queue)) [
    | inl h ↦ inl (last_node-none s.queue h, ground arith)
    | inr (n, h) ↦ inr (
      n.entry,
      erase_iterator m s (get_key n.entry) n.address,
      ground arith,
      last_node-erase s.queue n v.distinct h,
    )
  ]

  -- pop_front fails on the empty list only, and otherwise takes exactly the first entry off.
  pub pop_front-split :
      (s : OrderedMap K E)
      → ((entries s ≡ []) × (pop_front m s ≡ none))
        ⊎ ((e : E) × (t : OrderedMap K E) × (pop_front m s ≡ some (e, t))
            × (entries s ≡ e ∷ entries t))
  unfolding pop_front erase_iterator
  pop_front-split s = elim (Option-cases (first_node s.queue)) [
    | inl h ↦ inl (first_node-none s.queue h, ground arith)
    | inr (n, h) ↦ inr (
      n.entry,
      erase_iterator m s (get_key n.entry) n.address,
      ground arith,
      first_node-erase s.queue n h,
    )
  ]

  -- pop gives the value of the entry that find gives, and erases like erase by key.
  pub pop-find-erase :
      (s : OrderedMap K E) (k : K)
      → IsLinked m s
      → ((pop m s k).0 ≡ (erase m s k).0) × ((pop m s k).1 ≡ Option.map get_value (find m s k))
  unfolding pop erase find
  pop-find-erase s k v = elim (Option-cases (table_find dec k s.lookup)) [
    | inl e ↦ (ground arith, ground arith)
    | inr (a, e) ↦
        let found = node_find_of_address m k a s.queue (sym (v.linked k) ∙ e) in
        (ground arith, ground arith)
  ]

  -- What the operations do, read off the list of entries in their order.
  abbrev pub Refines : OrderedMap K E → K → Type 0
  Refines s k =
      ((find m s k ≡ entry_of k (entries s))
        × ((exists m s k ≡ false) ↔ (entry_of k (entries s) ≡ none)))
      × ((entries (erase m s k).0 ≡ without k (entries s)) × ((erase m s k).1 ≡ exists m s k))
      × (((pop m s k).0 ≡ (erase m s k).0) × ((pop m s k).1 ≡ Option.map get_value (find m s k)))
      × (((entries s ≡ []) × (pop_back m s ≡ none))
          ⊎ ((e : E) × (t : OrderedMap K E) × (pop_back m s ≡ some (e, t))
              × (entries s ≡ entries t ++ e ∷ [])))

  -- A linked map is the list of its entries in their order: find and exists answer for the first
  -- entry with the key, and each misses exactly when there is none; erase takes that entry off,
  -- keeps all others in their order, and reports whether there was one; pop does the same and gives
  -- its value; pop_back fails on the empty list only, and otherwise takes exactly the last entry
  -- off.
  pub IsLinked-Refines : (s : OrderedMap K E) (k : K) → IsLinked m s → Refines s k
  IsLinked-Refines s k v =
      (find-entry_of k v, erase-without k v, pop-find-erase s k v, pop_back-split s v)
