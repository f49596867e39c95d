-- ===== src/OrderedMap/Invariant.antt =====
-- The list and the hash table of OrderedMap.hpp agree, and every operation keeps it so.
use andromeda_desktop_client.Common.{
  ℕ, suc, ◌≤◌, ◌<◌, ◌≡◌, refl, ite, ◌≢◌, List, [], ◌∷◌, ◌++◌, Option, none, some, arith, subst, ◌∙◌,
  Option-cases, inl, inr,
}
use andromeda_desktop_client.OrderedMap.Store.{
  Node, table_find, node_find, node_erase, first_node, last_node, find-table_erase, find-table_set,
}
use andromeda_desktop_client.OrderedMap.{
  Impl, OrderedMap, find, empty_map, clear, erase_iterator, erase, pop, pop_front, pop_back,
  enqueue_front, enqueue_back,
}

module _ {K V E : Type 0} (m : Impl K V E) where
  open m use {get_key, key_discrete as dec}

  -- The address of the first node with a key.
  unfoldable pub address_of : K → List (Node E) → Option ℕ
  address_of k [] = none
  address_of k (n ∷ q) = ite (dec (get_key n.entry) k) (some n.address) (address_of k q)

  -- No key and no address stands twice in the list.
  abbrev pub Distinct : List (Node E) → Type 0
  Distinct [] = Unit {0}
  Distinct (n ∷ q) =
      (address_of (get_key n.entry) q ≡ none) × (node_find n.address q ≡ none) × Distinct q

  abbrev pub Below : ℕ → List (Node E) → Type 0
  Below b [] = Unit {0}
  Below b (n ∷ q) = (n.address < b) × Below b q

  pub record IsLinked (s : OrderedMap K E) : Type 0 where
    pub linked : (k : K) → table_find dec k s.lookup ≡ address_of k s.queue
    pub distinct : Distinct s.queue
    pub below : Below s.next_address s.queue

  find-Below : (a b : ℕ) (q : List (Node E)) → Below b q → b ≤ a → node_find a q ≡ none
  unfolding node_find
  find-Below a b [] h le = refl
  find-Below a b (n ∷ q) h le = ground (arith, find-Below a b q h.1 le)

  Below-suc : (b : ℕ) (q : List (Node E)) → Below b q → Below (suc b) q
  Below-suc b [] h = tt
  Below-suc b (n ∷ q) h = (omega arith, Below-suc b q h.1)

  erase-Below : (a b : ℕ) (q : List (Node E)) → Below b q → Below b (node_erase a q)
  unfolding node_erase
  erase-Below a b [] h = tt
  erase-Below a b (n ∷ q) h = ground (arith, erase-Below a b q h.1)

  -- Erasing a node removes nothing else.
  find-node_erase-none :
      (a c : ℕ) (q : List (Node E)) → node_find c q ≡ none → node_find c (node_erase a q) ≡ none
  unfolding node_erase node_find
  find-node_erase-none a c [] h = refl
  find-node_erase-none a c (n ∷ q) h = ground (arith, find-node_erase-none a c q)

  address-node_erase-none :
      (a : ℕ) (k : K) (q : List (Node E))
      → address_of k q ≡ none
      → address_of k (node_erase a q) ≡ none
  unfolding node_erase address_of
  address-node_erase-none a k [] h = refl
  address-node_erase-none a k (n ∷ q) h = ground (arith, address-node_erase-none a k q)

  erase-Distinct : (a : ℕ) (q : List (Node E)) → Distinct q → Distinct (node_erase a q)
  unfolding node_erase
  erase-Distinct a [] h = tt
  erase-Distinct a (n ∷ q) h = ground (
    arith,
    erase-Distinct a q h.2,
    find-node_erase-none a n.address q h.1,
    address-node_erase-none a (get_key n.entry) q h.0,
  )

  pub node_find_of_address :
      (k : K) (a : ℕ) (q : List (Node E)) → address_of k q ≡ some a → node_find a q ≢ none
  unfolding node_find address_of
  node_find_of_address k a [] h = cc
  node_find_of_address k a (n ∷ q) h = ground (arith, node_find_of_address k a q)

  -- Erasing the node of a key makes that key, and no other, absent.
  pub address-node_erase :
      (j k : K) (a : ℕ) (q : List (Node E))
      → Distinct q
      → address_of k q ≡ some a
      → address_of j (node_erase a q) ≡ ite (dec k j) none (address_of j q)
  unfolding node_erase address_of
  address-node_erase j k a [] d h = cc
  address-node_erase j k a (n ∷ q) d h =
      ground (arith, address-node_erase j k a q d.2, node_find_of_address k a q)

  pub empty-IsLinked : IsLinked empty_map
  unfolding empty_map table_find address_of
  empty-IsLinked = record { linked = λ k. refl; distinct = tt; below = tt }

  pub clear-IsLinked : (s : OrderedMap K E) → IsLinked (clear s)
  unfolding clear table_find address_of
  clear-IsLinked s = record { linked = λ k. refl; distinct = tt; below = tt }

  pub erase_iterator-IsLinked :
      {s : OrderedMap K E} (k : K) (a : ℕ)
      → IsLinked s
      → table_find dec k s.lookup ≡ some a
      → IsLinked (erase_iterator m s k a)
  unfolding erase_iterator
  erase_iterator-IsLinked {s} k a v h = record {
    linked = λ j. ground (
      arith,
      find-table_erase dec j k s.lookup,
      address-node_erase j k a s.queue v.distinct,
      v.linked j,
      v.linked k,
    );
    distinct = erase-Distinct a s.queue v.distinct;
    below = erase-Below a s.next_address s.queue v.below;
  }

  pub erase-IsLinked : {s : OrderedMap K E} (k : K) → IsLinked s → IsLinked (erase m s k).0
  unfolding erase
  erase-IsLinked {s} k v = elim (Option-cases (table_find dec k s.lookup)) [
    | inl e ↦ rw (e, erase) v
    | inr (a, e) ↦ rw (e, erase) (erase_iterator-IsLinked k a v e)
  ]

  pub pop-IsLinked : {s : OrderedMap K E} (k : K) → IsLinked s → IsLinked (pop m s k).0
  unfolding pop
  pop-IsLinked {s} k v = elim (Option-cases (table_find dec k s.lookup)) [
    | inl e ↦ rw (e, pop) v
    | inr (a, e) ↦ elim (Option-cases (node_find a s.queue)) [
      | inl f ↦ rw (e, pop) (rw (f, pop) v)
      | inr (x, f) ↦ rw (e, pop) (rw (f, pop) (erase_iterator-IsLinked k a v e))
    ]
  ]

  -- The first and the last node are those that their keys lead to.
  pub first_address :
      (q : List (Node E)) (n : Node E)
      → first_node q ≡ some n
      → address_of (get_key n.entry) q ≡ some n.address
  unfolding address_of first_node
  first_address [] n h = cc
  first_address (x ∷ q) n h = ground arith

  pub last_address :
      (q : List (Node E)) (n : Node E)
      → Distinct q
      → last_node q ≡ some n
      → address_of (get_key n.entry) q ≡ some n.address
  unfolding address_of last_node
  last_address [] n d h = cc
  last_address (x ∷ []) n d h = ground arith
  last_address (x ∷ y ∷ q) n d h = ground (arith, last_address (y ∷ q) n d.2)

  pub pop_node-IsLinked :
      {s : OrderedMap K E} (n : Node E)
      → IsLinked s
      → address_of (get_key n.entry) s.queue ≡ some n.address
      → IsLinked (erase_iterator m s (get_key n.entry) n.address)
  pop_node-IsLinked {s} n v h =
      erase_iterator-IsLinked (get_key n.entry) n.address v (v.linked (get_key n.entry) ∙ h)

  pub pop_front-IsLinked :
      {s t : OrderedMap K E} (e : E) → IsLinked s → pop_front m s ≡ some (e, t) → IsLinked t
  unfolding pop_front
  pop_front-IsLinked {s} {t} e v h = elim (Option-cases (first_node s.queue)) [
    | inl p ↦ absurd (ground arith)
    | inr (n, p) ↦
        let eq : erase_iterator m s (get_key n.entry) n.address ≡ t = ground arith in
        subst IsLinked eq (pop_node-IsLinked n v (first_address s.queue n p))
  ]

  pub pop_back-IsLinked :
      {s t : OrderedMap K E} (e : E) → IsLinked s → pop_back m s ≡ some (e, t) → IsLinked t
  unfolding pop_back
  pop_back-IsLinked {s} {t} e v h = elim (Option-cases (last_node s.queue)) [
    | inl p ↦ absurd (ground arith)
    | inr (n, p) ↦
        let eq : erase_iterator m s (get_key n.entry) n.address ≡ t = ground arith in
        subst IsLinked eq (pop_node-IsLinked n v (last_address s.queue n v.distinct p))
  ]

  pub enqueue_front-IsLinked :
      {s : OrderedMap K E} (e : E)
      → IsLinked s
      → address_of (get_key e) s.queue ≡ none
      → IsLinked (enqueue_front m s e)
  unfolding enqueue_front address_of
  enqueue_front-IsLinked {s} e v h = record {
    linked =
        λ j. ground (arith, find-table_set dec j (get_key e) s.next_address s.lookup, v.linked j);
    distinct =
        (h, find-Below s.next_address s.next_address s.queue v.below (omega arith), v.distinct);
    below = (omega arith, Below-suc s.next_address s.queue v.below);
  }

  address-append :
      (k : K) (n : Node E) (q : List (Node E))
      → address_of (get_key n.entry) q ≡ none
      → address_of k (q ++ n ∷ []) ≡ ite (dec (get_key n.entry) k) (some n.address) (address_of k q)
  unfolding address_of
  address-append k n [] h = refl
  address-append k n (x ∷ q) h = ground (arith, address-append k n q)

  find-append_none :
      (a : ℕ) (n : Node E) (q : List (Node E))
      → node_find a q ≡ none
      → n.address ≢ a
      → node_find a (q ++ n ∷ []) ≡ none
  unfolding node_find
  find-append_none a n [] h e = ground arith
  find-append_none a n (x ∷ q) h e = ground (arith, find-append_none a n q)

  append-Below :
      (b : ℕ) (n : Node E) (q : List (Node E)) → Below b q → n.address < b → Below b (q ++ n ∷ [])
  append-Below b n [] h lt = (lt, tt)
  append-Below b n (x ∷ q) h lt = (h.0, append-Below b n q h.1 lt)

  append-Distinct :
      (n : Node E) (q : List (Node E))
      → Distinct q
      → Below n.address q
      → address_of (get_key n.entry) q ≡ none
      → Distinct (q ++ n ∷ [])
  unfolding address_of node_find
  append-Distinct n [] d b h = (refl, ground arith, tt)
  append-Distinct n (x ∷ q) d b h = (
    ground (arith, address-append (get_key x.entry) n q),
    find-append_none x.address n q d.1 (omega arith),
    append-Distinct n q d.2 b.1 (ground arith),
  )

  pub enqueue_back-IsLinked :
      {s : OrderedMap K E} (e : E)
      → IsLinked s
      → address_of (get_key e) s.queue ≡ none
      → IsLinked (enqueue_back m s e)
  unfolding enqueue_back
  enqueue_back-IsLinked {s} e v h =
      let n : Node E = record { address = s.next_address; entry = e } in
      record {
        linked = λ j. ground (
          arith,
          find-table_set dec j (get_key e) s.next_address s.lookup,
          v.linked j,
          address-append j n s.queue h,
        );
        distinct = append-Distinct n s.queue v.distinct v.below h;
        below =
            append-Below (suc s.next_address) n s.queue (Below-suc s.next_address s.queue v.below)
              (omega arith);
      }

  -- One call of an operation, enqueue_front and enqueue_back within their precondition.
  pub data Step (s : OrderedMap K E) : OrderedMap K E → Type 0 where
    clears : Step s (clear s)
    erases : (k : K) → Step s (erase m s k).0
    pops : (k : K) → Step s (pop m s k).0
    pops_front : (e : E) {t : OrderedMap K E} → pop_front m s ≡ some (e, t) → Step s t
    pops_back : (e : E) {t : OrderedMap K E} → pop_back m s ≡ some (e, t) → Step s t
    enqueues_front : (e : E) → find m s (get_key e) ≡ none → Step s (enqueue_front m s e)
    enqueues_back : (e : E) → find m s (get_key e) ≡ none → Step s (enqueue_back m s e)

  pub data Reachable : OrderedMap K E → Type 0 where
    start : Reachable empty_map
    next : {s t : OrderedMap K E} → Reachable s → Step s t → Reachable t

  -- In a linked map a key that find misses is on no node.
  pub absent_of_find :
      {s : OrderedMap K E} (k : K) → IsLinked s → find m s k ≡ none → address_of k s.queue ≡ none
  unfolding find
  absent_of_find {s} k v h = elim (Option-cases (table_find dec k s.lookup)) [
    | inl e ↦ cc (e, v.linked k)
    | inr (a, e) ↦ absurd (node_find_of_address k a s.queue (cc (e, v.linked k)) (ground arith))
  ]

  pub Step-IsLinked : {s t : OrderedMap K E} → Step s t → IsLinked s → IsLinked t
  Step-IsLinked {s} clears v = clear-IsLinked s
  Step-IsLinked (erases k) v = erase-IsLinked k v
  Step-IsLinked (pops k) v = pop-IsLinked k v
  Step-IsLinked (pops_front e h) v = pop_front-IsLinked e v h
  Step-IsLinked (pops_back e h) v = pop_back-IsLinked e v h
  Step-IsLinked (enqueues_front e h) v = enqueue_front-IsLinked e v (absent_of_find (get_key e) v h)
  Step-IsLinked (enqueues_back e h) v = enqueue_back-IsLinked e v (absent_of_find (get_key e) v h)

  -- Whatever calls are made from the empty map, in any order and with every enqueued key new, the
  -- hash table leads each key to the address of its first node and no other key anywhere, no two
  -- nodes share a key or an address, and every address is below the next one.
  pub Reachable-IsLinked : {s : OrderedMap K E} → Reachable s → IsLinked s
  Reachable-IsLinked start = empty-IsLinked
  Reachable-IsLinked (next r st) = Step-IsLinked st (Reachable-IsLinked r)
