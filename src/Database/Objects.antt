-- ===== src/Database/Objects.antt =====
-- Saving one object: BaseObject.cpp of src/lib/andromeda/database, with the queries of
-- ObjectDatabase.cpp, outside of SaveObjects. A column is a number. A query is what it sets, by
-- placeholders, with the values of the placeholders; the database tells how many rows it has
-- changed.
use andromeda_desktop_client.Common.{
  ℕ, ◌+◌, Bool, true, false, if◌then◌else◌, ◌==◌, Option, none, some, List, [], ◌∷◌,
}
use andromeda_desktop_client.Database.{MixedValue, null, int, is_positive}
use andromeda_desktop_client.Database.NullScalar
use andromeda_desktop_client.Database.Scalar
use andromeda_desktop_client.Database.NullScalar.{NullScalarType}
use andromeda_desktop_client.Database.Scalar.{ScalarType}
use andromeda_desktop_client.Database.Counter.{CounterType}

pub data Field (T : Type 0) : Type 0 where
  nullable : NullScalarType T → Field T
  scalar : ScalarType T → Field T
  counter : CounterType → Field T

unfoldable pub field_value : {T : Type 0} → Field T → Option (MixedValue T)
unfolding NullScalar.get_db_value Scalar.get_db_value
field_value (nullable f) = some (NullScalar.get_db_value f)
field_value (scalar f) = Scalar.get_db_value f
field_value (counter c) = some (int c.delta)

abbrev pub use_db_increment : {T : Type 0} → Field T → Bool
use_db_increment (counter c) = true
use_db_increment _ = false

abbrev pub get_delta : {T : Type 0} → Field T → ℕ
get_delta (nullable f) = f.delta
get_delta (scalar f) = f.delta
get_delta (counter c) = c.delta

abbrev pub set_unmodified : {T : Type 0} → Field T → Field T
set_unmodified (nullable f) = nullable (record f { delta = 0 })
set_unmodified (scalar f) = scalar (record f { delta = 0 })
set_unmodified (counter c) = counter (record c { delta = 0 })

pub record Object (T : Type 0) : Type 0 where
  pub created : Bool
  pub fields : List (ℕ × Field T)

unfoldable pub all_unmodified : {T : Type 0} → List (ℕ × Field T) → List (ℕ × Field T)
all_unmodified [] = []
all_unmodified ((k, f) ∷ fs) = (k, set_unmodified f) ∷ all_unmodified fs

unfoldable pub modified_fields : {T : Type 0} → List (ℕ × Field T) → List (ℕ × Field T)
modified_fields [] = []
modified_fields ((k, f) ∷ fs) =
    let rest = modified_fields fs in if is_positive (get_delta f) then (k, f) ∷ rest else rest

-- key=NULL, key=key+:d and key=:d.
pub data Set : Type 0 where
  to_null : Set
  adds : ℕ → Set
  assigns : ℕ → Set

abbrev pub next : {T : Type 0} → MixedValue T → ℕ → ℕ
next null i = i
next _ i = i + 1

abbrev pub set_of : {T : Type 0} → Bool → MixedValue T → ℕ → Set
set_of b null i = to_null
set_of true _ i = adds i
set_of false _ i = assigns i

abbrev pub add_param :
    {T : Type 0} → ℕ → MixedValue T → List (ℕ × MixedValue T) → List (ℕ × MixedValue T)
add_param i null params = params
add_param i v params = (i, v) ∷ params

abbrev pub MixedParams : Type 0 → Type 0
MixedParams T = List (ℕ × MixedValue T)

-- The loops over the fields; `none` where GetDBValue throws.
unfoldable pub update_sets :
    {T : Type 0} → ℕ → List (ℕ × Field T) → Option (List (ℕ × Set) × MixedParams T)
update_sets i [] = some ([], [])
update_sets i ((k, f) ∷ fs) = elim (field_value f) [
  | none ↦ none
  | some v ↦ elim (update_sets (next v i) fs) [
    | none ↦ none
    | some (sets, params) ↦ some ((k, set_of (use_db_increment f) v i) ∷ sets, add_param i v params)
  ]
]

abbrev pub index_of : {T : Type 0} → MixedValue T → ℕ → Option ℕ
index_of null i = none
index_of _ i = some i

unfoldable pub insert_columns :
    {T : Type 0} → ℕ → List (ℕ × Field T) → Option (List (ℕ × Option ℕ) × MixedParams T)
insert_columns i [] = some ([], [])
insert_columns i ((k, f) ∷ fs) = elim (field_value f) [
  | none ↦ none
  | some v ↦ elim (insert_columns (next v i) fs) [
    | none ↦ none
    | some (columns, params) ↦ some ((k, index_of v i) ∷ columns, add_param i v params)
  ]
]

pub data Query (T : Type 0) : Type 0 where
  updates : List (ℕ × Set) → MixedParams T → Query T
  inserts : List (ℕ × Option ℕ) → MixedParams T → Query T

-- What Save throws or returns: the object, and the query that the database has carried out.
pub data Saved (T : Type 0) : Type 0 where
  thrown : Object T → Saved T
  saved : Object T → Option (Query T) → Saved T

module _ {T : Type 0} (affected : Query T → ℕ) where
  -- InsertObject_Register and UpdateObject_Register.
  abbrev pub registered : Object T → Object T
  registered o = record { created = false; fields = all_unmodified o.fields }

  unfoldable pub send : Object T → Query T → Saved T
  send o q = if affected q == 1 then saved (registered o) (some q) else thrown o

  unfoldable pub insert_object : Object T → Option (List (ℕ × Option ℕ) × MixedParams T) → Saved T
  unfolding send
  insert_object o none = thrown o
  insert_object o (some (columns, params)) = send o (inserts columns params)

  unfoldable pub update_object : Object T → Option (List (ℕ × Set) × MixedParams T) → Saved T
  unfolding send
  update_object o none = thrown o
  update_object o (some ([], params)) = saved (registered o) none
  update_object o (some (x ∷ sets, params)) = send o (updates (x ∷ sets) params)

  unfoldable pub save : Object T → Saved T
  unfolding insert_object update_object insert_columns update_sets modified_fields
  save o =
      if o.created
      then insert_object o (insert_columns 0 (modified_fields o.fields))
      else update_object o (update_sets 0 (modified_fields o.fields))
