-- ===== src/OrderedMap.antt =====
-- src/lib/andromeda/OrderedMap.hpp: a list of entries with a hash table of iterators into it.
-- A list iterator is the address of a node; addresses are never reused while a node lives.
-- The model is of a build without DEBUG: the asserts of enqueue_front and enqueue_back are absent.
-- An operation whose comment says MUST NOT BE EMPTY answers none on an empty list.
pub mod Store
pub mod Invariant
pub mod Spec
pub mod Laws
mod Tests
use Store.{
  Node, table_find, table_erase, table_set, node_find, node_erase, node_set, first_node, last_node,
  entries_of,
}
use andromeda_desktop_client.Common.{
  ℕ, suc, ◌+◌, Bool, true, false, ◌&&◌, if◌then◌else◌, List, [], ◌∷◌, ◌++◌, Option, none, some,
  length, ◌==◌, not,
}

-- The implementor class: how to get the key and the value from an entry.
pub record Impl (K V E : Type 0) : Type 0 where
  pub get_key : E → K
  pub get_value : E → V
  pub key_discrete : Discrete K

-- `OrderedMap`: entries are pairs. `HashedQueue`: entries are their own keys.
abbrev pub pair_impl : {K V : Type 0} → Discrete K → Impl K V (K × V)
pair_impl dec = record { get_key = λ e. e.0; get_value = λ e. e.1; key_discrete = dec }

abbrev pub self_impl : {K : Type 0} → Discrete K → Impl K K K
self_impl dec = record { get_key = λ e. e; get_value = λ e. e; key_discrete = dec }

pub record OrderedMap (K E : Type 0) : Type 0 where
  pub queue : List (Node E)
  pub lookup : List (K × ℕ)
  pub next_address : ℕ

abbrev pub entries : {K E : Type 0} → OrderedMap K E → List E
entries s = entries_of s.queue

unfoldable pub empty_map : {K E : Type 0} → OrderedMap K E
empty_map = record { queue = []; lookup = []; next_address = 0 }

unfoldable pub clear : {K E : Type 0} → OrderedMap K E → OrderedMap K E
clear s = record s { queue = []; lookup = [] }

unfoldable pub size : {K E : Type 0} → OrderedMap K E → ℕ
size s = length s.queue

unfoldable pub empty : {K E : Type 0} → OrderedMap K E → Bool
empty s = elim s.queue [ [] ↦ true | n ∷ q ↦ false ]

unfoldable pub front : {K E : Type 0} → OrderedMap K E → Option E
front s = elim (first_node s.queue) [ none ↦ none | some n ↦ some n.entry ]

unfoldable pub back : {K E : Type 0} → OrderedMap K E → Option E
back s = elim (last_node s.queue) [ none ↦ none | some n ↦ some n.entry ]

module _ {K V E : Type 0} (m : Impl K V E) where
  -- The iterator of a key in the hash table.
  unfoldable pub lookup_of : OrderedMap K E → K → Option ℕ
  lookup_of s k = table_find m.key_discrete k s.lookup

  unfoldable pub exists : OrderedMap K E → K → Bool
  exists s k = elim (table_find m.key_discrete k s.lookup) [ none ↦ false | some a ↦ true ]

  unfoldable pub find : OrderedMap K E → K → Option E
  find s k = elim (table_find m.key_discrete k s.lookup) [
    | none ↦ none
    | some a ↦ node_find a s.queue
  ]

  -- A client's assignment through the iterator that find gives.
  unfoldable pub assign : OrderedMap K E → K → E → OrderedMap K E
  assign s k e = elim (table_find m.key_discrete k s.lookup) [
    | none ↦ s
    | some a ↦ record s { queue = node_set a e s.queue }
  ]

  -- Erasing through a lookup iterator, the pair of a key and a list iterator.
  unfoldable pub erase_iterator : OrderedMap K E → K → ℕ → OrderedMap K E
  erase_iterator s k a = record s {
    queue = node_erase a s.queue;
    lookup = table_erase m.key_discrete k s.lookup;
  }

  unfoldable pub erase : OrderedMap K E → K → OrderedMap K E × Bool
  unfolding erase_iterator
  erase s k = elim (table_find m.key_discrete k s.lookup) [
    | none ↦ (s, false)
    | some a ↦ (erase_iterator s k a, true)
  ]

  unfoldable pub pop : OrderedMap K E → K → OrderedMap K E × Option V
  unfolding erase_iterator
  pop s k = elim (table_find m.key_discrete k s.lookup) [
    | none ↦ (s, none)
    | some a ↦ elim (node_find a s.queue) [
      | none ↦ (s, none)
      | some e ↦ (erase_iterator s k a, some (m.get_value e))
    ]
  ]

  -- The common body of pop_front and pop_back, at the node of the list iterator.
  unfoldable pub pop_node : OrderedMap K E → Option (Node E) → Option (E × OrderedMap K E)
  unfolding erase_iterator
  pop_node s none = none
  pop_node s (some n) = some (n.entry, erase_iterator s (m.get_key n.entry) n.address)

  unfoldable pub pop_front : OrderedMap K E → Option (E × OrderedMap K E)
  unfolding pop_node
  pop_front s = pop_node s (first_node s.queue)

  unfoldable pub pop_back : OrderedMap K E → Option (E × OrderedMap K E)
  unfolding pop_node
  pop_back s = pop_node s (last_node s.queue)

  unfoldable pub enqueue_front : OrderedMap K E → E → OrderedMap K E
  enqueue_front s e = record {
    queue = record { address = s.next_address; entry = e } ∷ s.queue;
    lookup = table_set m.key_discrete (m.get_key e) s.next_address s.lookup;
    next_address = suc s.next_address;
  }

  unfoldable pub enqueue_back : OrderedMap K E → E → OrderedMap K E
  enqueue_back s e = record {
    queue = s.queue ++ record { address = s.next_address; entry = e } ∷ [];
    lookup = table_set m.key_discrete (m.get_key e) s.next_address s.lookup;
    next_address = suc s.next_address;
  }

  -- The constructor from an initializer list.
  unfoldable pub from_list : OrderedMap K E → List E → OrderedMap K E
  unfolding enqueue_back
  from_list s [] = s
  from_list s (e ∷ es) = from_list (enqueue_back s e) es

-- The loop of operator==, over two lists of one length.
unfoldable pub same_entries : {E : Type 0} → Discrete E → List (Node E) → List (Node E) → Bool
same_entries dec [] r = true
same_entries dec (x ∷ l) [] = false
same_entries dec (x ∷ l) (y ∷ r) = elim (dec x.entry y.entry) [
  | yes _ ↦ same_entries dec l r
  | no _ ↦ false
]

unfoldable pub equals : {K E : Type 0} → Discrete E → OrderedMap K E → OrderedMap K E → Bool
unfolding same_entries size empty
equals dec s t =
    if not (size s == size t)
    then false
    else if empty s && empty t
    then true
    else same_entries dec s.queue t.queue
