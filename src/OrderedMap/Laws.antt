-- ===== src/OrderedMap/Laws.antt =====
-- The laws by which clients of OrderedMap.hpp reason: what find answers after each change.
use andromeda_desktop_client.Common.{
  length, ◌+◌, ℕ, ◌≡◌, refl, ite, ◌≢◌, if_pos, if_neg, sym, ◌∙◌, List, [], ◌∷◌, Option, none, some,
  arith, Option-cases, inl, inr, ap,
}
use andromeda_desktop_client.OrderedMap.Store.{
  Node, table_find, node_find, node_set, node_erase, last_node, entries_of, find-table_erase,
}
use andromeda_desktop_client.OrderedMap.Invariant.{
  address_of, Distinct, Below, IsLinked, node_find_of_address, absent_of_find, erase-IsLinked,
  last_address, enqueue_front-IsLinked,
}
use andromeda_desktop_client.OrderedMap.Spec.{entry_of, without, find-entry_of, erase-without}
use andromeda_desktop_client.OrderedMap.{
  Impl, OrderedMap, entries, find, erase, assign, enqueue_front, size, back,
}

module _ {K V E : Type 0} (m : Impl K V E) where
  open m use {get_key, key_discrete as dec}

  -- The list with the first entry of a key replaced.
  unfoldable pub replace : K → E → List E → List E
  replace k e [] = []
  replace k e (x ∷ es) = ite (dec (get_key x) k) (e ∷ es) (x ∷ replace k e es)

  address-node_set :
      (j k : K) (a : ℕ) (e : E) (q : List (Node E))
      → Distinct m q
      → address_of m k q ≡ some a
      → get_key e ≡ k
      → address_of m j (node_set a e q) ≡ address_of m j q
  unfolding address_of node_set
  address-node_set j k a e [] d h p = refl
  address-node_set j k a e (n ∷ q) d h p =
      ground (arith, address-node_set j k a e q d.2, node_find_of_address m k a q)

  find-node_set-none :
      (c a : ℕ) (e : E) (q : List (Node E))
      → node_find c q ≡ none
      → node_find c (node_set a e q) ≡ none
  unfolding node_find node_set
  find-node_set-none c a e [] h = refl
  find-node_set-none c a e (n ∷ q) h = ground (arith, find-node_set-none c a e q)

  set-Below : (b a : ℕ) (e : E) (q : List (Node E)) → Below m b q → Below m b (node_set a e q)
  unfolding node_set
  set-Below b a e [] h = tt
  set-Below b a e (n ∷ q) h = ground (arith, set-Below b a e q h.1)

  set-Distinct :
      (k : K) (a : ℕ) (e : E) (q : List (Node E))
      → Distinct m q
      → address_of m k q ≡ some a
      → get_key e ≡ k
      → Distinct m (node_set a e q)
  unfolding address_of node_set
  set-Distinct k a e [] d h p = tt
  set-Distinct k a e (n ∷ q) d h p = ground (
    arith,
    set-Distinct k a e q d.2,
    address-node_set (get_key n.entry) k a e q d.2,
    find-node_set-none n.address a e q,
    node_find_of_address m k a q,
  )

  pub assign-IsLinked :
      {s : OrderedMap K E} (k : K) (e : E)
      → IsLinked m s
      → get_key e ≡ k
      → IsLinked m (assign m s k e)
  unfolding assign
  assign-IsLinked {s} k e v p = elim (Option-cases (table_find dec k s.lookup)) [
    | inl h ↦ rw (h, assign) v
    | inr (a, h) ↦
        let at : address_of m k s.queue ≡ some a = sym (v.linked k) ∙ h in
        rw (h, assign)
          (record {
            linked = λ j. v.linked j ∙ sym (address-node_set j k a e s.queue v.distinct at p);
            distinct = set-Distinct k a e s.queue v.distinct at p;
            below = set-Below s.next_address a e s.queue v.below;
          })
  ]

  entries-node_set :
      (k : K) (a : ℕ) (e : E) (q : List (Node E))
      → Distinct m q
      → address_of m k q ≡ some a
      → entries_of (node_set a e q) ≡ replace k e (entries_of q)
  unfolding address_of node_set replace
  entries-node_set k a e [] d h = refl
  entries-node_set k a e (n ∷ q) d h =
      ground (arith, entries-node_set k a e q d.2, node_find_of_address m k a q)

  replace_absent :
      (k : K) (e : E) (q : List (Node E))
      → address_of m k q ≡ none
      → replace k e (entries_of q) ≡ entries_of q
  unfolding address_of replace
  replace_absent k e [] h = refl
  replace_absent k e (n ∷ q) h = ground (arith, replace_absent k e q)

  -- Assigning through the iterator of a key replaces the entry of that key and keeps the order.
  pub assign-replace :
      {s : OrderedMap K E} (k : K) (e : E)
      → IsLinked m s
      → entries (assign m s k e) ≡ replace k e (entries s)
  unfolding assign
  assign-replace {s} k e v = elim (Option-cases (table_find dec k s.lookup)) [
    | inl h ↦ rw (h, assign) (sym (replace_absent k e s.queue (sym (v.linked k) ∙ h)))
    | inr (a, h) ↦ rw (h, assign) (entries-node_set k a e s.queue v.distinct (sym (v.linked k) ∙ h))
  ]

  entry_of-replace :
      (j k : K) (e : E) (es : List E)
      → get_key e ≡ k
      → entry_of m k es ≢ none
      → entry_of m j (replace k e es) ≡ ite (dec k j) (some e) (entry_of m j es)
  unfolding entry_of replace
  entry_of-replace j k e [] p h = absurd (h refl)
  entry_of-replace j k e (x ∷ es) p h = ground (arith, entry_of-replace j k e es p)

  pub entry_of-without_ne :
      (j k : K) (es : List E) → j ≢ k → entry_of m j (without m k es) ≡ entry_of m j es
  unfolding entry_of without
  entry_of-without_ne j k [] h = refl
  entry_of-without_ne j k (x ∷ es) h = ground (arith, entry_of-without_ne j k es h)

  pub find-erase_self : (s : OrderedMap K E) (k : K) → find m (erase m s k).0 k ≡ none
  unfolding find erase
  find-erase_self s k = elim (Option-cases (table_find dec k s.lookup)) [
    | inl h ↦ ground arith
    | inr (a, h) ↦ ground (arith, find-table_erase dec k k s.lookup)
  ]

  -- After erase by key that key is absent, and every other key has the entry that it had.
  pub find-erase :
      {s : OrderedMap K E} (j k : K)
      → IsLinked m s
      → find m (erase m s k).0 j ≡ ite (dec k j) none (find m s j)
  find-erase {s} j k v = elim (dec k j) [
    | yes p ↦ rw (if_pos _ p) (rw (← p) (find-erase_self s k))
    | no p ↦ rw (if_neg _ p) (
        (find-entry_of m j (erase-IsLinked m k v)).0
        ∙ ap (entry_of m j) (erase-without m k v).0
        ∙ entry_of-without_ne j k (entries s) (λ e. p (sym e))
        ∙ sym (find-entry_of m j v).0)
  ]

  entry_of-enqueue_front :
      (s : OrderedMap K E) (j : K) (e : E)
      → entry_of m j (entries (enqueue_front m s e))
        ≡ ite (dec (get_key e) j) (some e) (entry_of m j (entries s))
  unfolding entry_of enqueue_front
  entry_of-enqueue_front s j e = refl

  pub find-erase_ne :
      {s : OrderedMap K E} (j k : K) → IsLinked m s → j ≢ k → find m (erase m s k).0 j ≡ find m s j
  find-erase_ne {s} j k v h = ground (arith, find-erase j k v)

  -- After enqueue_front of a new key, find gives the new entry for that key, and every other key
  -- has the entry that it had.
  pub find-enqueue_front :
      {s : OrderedMap K E} (j : K) (e : E)
      → IsLinked m s
      → find m s (get_key e) ≡ none
      → find m (enqueue_front m s e) j ≡ ite (dec (get_key e) j) (some e) (find m s j)
  find-enqueue_front {s} j e v h =
      let absent = absent_of_find m (get_key e) v h in
      (find-entry_of m j (enqueue_front-IsLinked m e v absent)).0
      ∙ entry_of-enqueue_front s j e
      ∙ ap (λ (o : Option E). ite (dec (get_key e) j) (some e) o) (sym (find-entry_of m j v).0)

  -- After an assignment through the iterator of a key that is present, find gives the new entry
  -- for that key, and every other key has the entry that it had.
  pub find-assign :
      {s : OrderedMap K E} (j k : K) (e : E)
      → IsLinked m s
      → get_key e ≡ k
      → find m s k ≢ none
      → find m (assign m s k e) j ≡ ite (dec k j) (some e) (find m s j)
  find-assign {s} j k e v p h =
      (find-entry_of m j (assign-IsLinked k e v p)).0
      ∙ ap (entry_of m j) (assign-replace k e v)
      ∙ entry_of-replace j k e (entries s) p (λ q. h ((find-entry_of m k v).0 ∙ q))
      ∙ ap (λ (o : Option E). ite (dec k j) (some e) o) (sym (find-entry_of m j v).0)

  length-node_erase :
      (a : ℕ) (q : List (Node E)) → node_find a q ≢ none → length (node_erase a q) + 1 ≡ length q
  unfolding node_find node_erase
  length-node_erase a [] h = absurd (h refl)
  length-node_erase a (n ∷ q) h = ground (arith, length-node_erase a q)

  -- Erasing a key that is present makes the map smaller by one.
  pub size-erase :
      (s : OrderedMap K E) (k : K)
      → IsLinked m s
      → find m s k ≢ none
      → size (erase m s k).0 + 1 ≡ size s
  unfolding find erase size
  size-erase s k v h = elim (Option-cases (table_find dec k s.lookup)) [
    | inl e ↦ absurd (h (ground arith))
    | inr (a, e) ↦
        let found = node_find_of_address m k a s.queue (sym (v.linked k) ∙ e) in
        ground (arith, length-node_erase a s.queue found)
  ]

  node_find-last :
      (q : List (Node E)) (n : Node E)
      → Distinct m q
      → last_node q ≡ some n
      → node_find n.address q ≡ some n.entry
  unfolding node_find last_node
  node_find-last [] n d h = absurd (cc)
  node_find-last (x ∷ []) n d h = ground arith
  node_find-last (x ∷ y ∷ q) n d h = ground (arith, node_find-last (y ∷ q) n d.2)

  -- The entry at the back is the one that find gives for its key.
  pub find-back :
      {s : OrderedMap K E} (e : E) → IsLinked m s → back s ≡ some e → find m s (get_key e) ≡ some e
  unfolding find back
  find-back {s} e v h = elim (Option-cases (last_node s.queue)) [
    | inl p ↦ absurd (ground arith)
    | inr (n, p) ↦
        let same : n.entry ≡ e = ground arith in
        ground (
          arith,
          v.linked (get_key n.entry),
          last_address m s.queue n v.distinct p,
          node_find-last s.queue n v.distinct p,
          same,
        )
  ]

  ite-ite : {P : Type 0} (d : Dec P) (x y z : Option E) → ite d x (ite d y z) ≡ ite d x z
  ite-ite (yes p) x y z = refl
  ite-ite (no p) x y z = refl

  -- After erase by key that key is absent, and every other key has the entry that it had. A new
  -- entry that is then put to the front of the map is what find gives for its key, again with every
  -- other entry as it was.
  pub find_lem :
      {s : OrderedMap K E} (j : K) (e : E)
      → IsLinked m s
      → (find m (erase m s (get_key e)).0 j ≡ ite (dec (get_key e) j) none (find m s j))
        × (find m (enqueue_front m (erase m s (get_key e)).0 e) j
            ≡ ite (dec (get_key e) j) (some e) (find m s j))
  find_lem {s} j e v =
      let gone = find-erase j (get_key e) v in
      let put =
        find-enqueue_front j e (erase-IsLinked m (get_key e) v) (find-erase_self s (get_key e)) in
      (
        gone,
        put
            ∙ ap (λ (o : Option E). ite (dec (get_key e) j) (some e) o) gone
            ∙ ite-ite (dec (get_key e) j) (some e) none (find m s j),
      )
