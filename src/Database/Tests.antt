-- ===== src/Database/Tests.antt =====
-- Tests of the model of the database fields, and its theorems at an object with three columns.
use andromeda_desktop_client.Common.{
  ℕ, zero, suc, ◌≡◌, refl, true, false, ◌==◌, ==_iff, Option, none, some, [], ◌∷◌, arith,
}
use andromeda_desktop_client.Database.{MixedValue, null, int, value, add32}
use andromeda_desktop_client.Database.NullScalar
use andromeda_desktop_client.Database.NullScalar.{NullScalarType}
use andromeda_desktop_client.Database.Counter.{CounterType}
use andromeda_desktop_client.Database.Scalar.{ScalarType}
use andromeda_desktop_client.Database.Objects.{
  nullable, scalar, counter, field_value, Object, Query, updates, inserts, adds, assigns, Saved,
  saved, save,
}
use andromeda_desktop_client.Database.Saves.{Tracks, AllTrack, Saves, save-Saves}
use andromeda_desktop_client.Database.Inserts.{Inserts, save-Inserts}
use andromeda_desktop_client.Database.Edits.{
  sets_nullable, Edit-Tracks, set_value_lem, fallen-dropped,
}

-- A name that is set, a size as it was loaded, and a counter that has grown by two.
abbrev name : NullScalarType ℕ
name = record { temp_null = false; temp_value = 7; real_null = false; real_value = 7; delta = 1 }

abbrev size : ScalarType ℕ
size = record { temp_initd = true; temp_value = 5; real_initd = true; real_value = 5; delta = 0 }

abbrev uses : CounterType
uses = record { count = 12; delta = 2 }

abbrev object : Object ℕ
object = record {
  created = false;
  fields = (0, nullable name) ∷ (1, scalar size) ∷ (2, counter uses) ∷ [];
}

abbrev row : ℕ → MixedValue ℕ
row zero = null
row (suc zero) = value 5
row (suc (suc k)) = int 10

abbrev one_row : Query ℕ → ℕ
one_row q = 1

abbrev Query-of : Saved ℕ → Option (Query ℕ)
Query-of (saved p q) = q
Query-of _ = none

object-sent :
    Query-of (save one_row object)
    ≡ some (updates ((0, assigns 0) ∷ (2, adds 1) ∷ []) ((0, value 7) ∷ (1, int 2) ∷ []))
unfolding save field_value
object-sent = refl

object-AllTrack : AllTrack row object.fields
unfolding field_value add32
object-AllTrack = (
  (omega arith, value 7, refl, λ e. absurd (omega (arith, e))),
  ((omega arith, value 5, refl, λ e. refl), ((omega arith, 10, omega arith, refl, refl), tt)),
)

save-Saves_example : Saves one_row object row (save one_row object)
save-Saves_example =
    save-Saves one_row object row refl
      (
        (λ e. omega (arith, e), (λ e. omega (arith, e), tt)),
        ((λ e. omega (arith, e), tt), (tt, tt)),
      )
      object-AllTrack

Edit-Tracks_example : Tracks (nullable (NullScalar.set_value ◌==◌ 9 false name).field) null
unfolding NullScalar.set_value field_value add32
Edit-Tracks_example =
    Edit-Tracks {same = ◌==◌} null (sets_nullable 9 false name) (omega arith) (object-AllTrack.0)

-- A field that was never set, over 0.
set_value_lem_example :
    (NullScalar.try_get_value true (NullScalar.set_value ◌==◌ 0 false (NullScalar.unset 0)).field
      ≡ some 0)
    × ((NullScalar.set_value ◌==◌ 0 false (NullScalar.unset 0)).modified ≡ false)
    × ((NullScalar.set_value ◌==◌ 0 false (NullScalar.unset 0)).field.delta ≡ 0)
    × (NullScalar.get_db_value (NullScalar.set_value ◌==◌ 0 false (NullScalar.unset 0)).field
        ≡ null)
set_value_lem_example = set_value_lem ◌==◌ 0 (NullScalar.unset 0) (λ a b e. (==_iff a b).0 e)

-- A counter of ten that was lowered by three.
fallen-dropped_example :
    (save one_row (record {
      created = false;
      fields = (2, counter (record { count = 7; delta = 4294967293 })) ∷ [];
    })
      ≡ saved
          (record { created = false; fields = (2, counter (record { count = 7; delta = 0 })) ∷ [] })
          none)
    × (¬ (Tracks {T = ℕ} (counter (record { count = 7; delta = 0 })) (int 10)))
unfolding add32
fallen-dropped_example =
    fallen-dropped one_row 2 10 (record { count = 7; delta = 4294967293 }) (omega arith)
      (omega arith) (omega arith) refl

-- The same name in a new object, over a size that is not changed.
abbrev fresh : Object ℕ
fresh = record { created = true; fields = (0, nullable name) ∷ (1, scalar size) ∷ [] }

fresh-sent : Query-of (save one_row fresh) ≡ some (inserts ((0, some 0) ∷ []) ((0, value 7) ∷ []))
unfolding save field_value
fresh-sent = refl

save-Inserts_example : Inserts one_row fresh (save one_row fresh)
unfolding field_value
save-Inserts_example =
    save-Inserts one_row fresh refl ((λ e. omega (arith, e), tt), (tt, tt))
      ((λ e. (value 7, refl)), ((λ e. (value 5, refl)), tt))
