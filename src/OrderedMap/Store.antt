-- ===== src/OrderedMap/Store.antt =====
-- The two standard containers that src/lib/andromeda/OrderedMap.hpp combines: an unordered_map from
-- keys to iterators, and a list whose iterators are the addresses of its nodes.
use andromeda_desktop_client.Common.{
  ℕ, ◌≡◌, ite, List, [], ◌∷◌, map, Option, none, some, ℕ_discrete, arith,
}

pub record Node (E : Type 0) : Type 0 where
  pub address : ℕ
  pub entry : E

module _ {K : Type 0} (dec : Discrete K) where
  -- std::unordered_map: find, erase and assignment through the index operator.
  unfoldable pub table_find : K → List (K × ℕ) → Option ℕ
  table_find k [] = none
  table_find k ((j, a) ∷ l) = ite (dec j k) (some a) (table_find k l)

  unfoldable pub table_erase : K → List (K × ℕ) → List (K × ℕ)
  table_erase k [] = []
  table_erase k ((j, a) ∷ l) = ite (dec j k) (table_erase k l) ((j, a) ∷ table_erase k l)

  unfoldable pub table_set : K → ℕ → List (K × ℕ) → List (K × ℕ)
  table_set k a l = (k, a) ∷ table_erase k l

  pub find-table_erase :
      (j k : K) (l : List (K × ℕ))
      → table_find j (table_erase k l) ≡ ite (dec k j) none (table_find j l)
  unfolding table_find table_erase
  find-table_erase j k [] = ground arith
  find-table_erase j k ((i, a) ∷ l) = ground (arith, find-table_erase j k l)

  pub find-table_set :
      (j k : K) (a : ℕ) (l : List (K × ℕ))
      → table_find j (table_set k a l) ≡ ite (dec k j) (some a) (table_find j l)
  unfolding table_find table_set
  find-table_set j k a l = ground (arith, find-table_erase j k l)

module _ {E : Type 0} where
  -- std::list: reading through an iterator, and erasing at one.
  unfoldable pub node_find : ℕ → List (Node E) → Option E
  node_find a [] = none
  node_find a (n ∷ q) = ite (ℕ_discrete n.address a) (some n.entry) (node_find a q)

  unfoldable pub node_erase : ℕ → List (Node E) → List (Node E)
  node_erase a [] = []
  node_erase a (n ∷ q) = ite (ℕ_discrete n.address a) q (n ∷ node_erase a q)

  -- Assigning to the entry that an iterator points to.
  unfoldable pub node_set : ℕ → E → List (Node E) → List (Node E)
  node_set a e [] = []
  node_set a e (n ∷ q) =
      ite (ℕ_discrete n.address a) (record n { entry = e } ∷ q) (n ∷ node_set a e q)

  -- The node that begin() points to, none on the empty list.
  unfoldable pub first_node : List (Node E) → Option (Node E)
  first_node [] = none
  first_node (n ∷ q) = some n

  -- Reading the last node: none on the empty list, where the standard's back() is undefined.
  unfoldable pub last_node : List (Node E) → Option (Node E)
  last_node [] = none
  last_node (n ∷ []) = some n
  last_node (n ∷ n' ∷ q) = last_node (n' ∷ q)

  abbrev pub entries_of : List (Node E) → List E
  entries_of = map (λ n. n.entry)
