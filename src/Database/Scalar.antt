-- ===== src/Database/Scalar.antt =====
-- ScalarType of src/lib/andromeda/database/fieldtypes/ScalarType.hpp.
use andromeda_desktop_client.Common.{
  ℕ, Bool, true, false, not, ◌&&◌, ◌||◌, if◌then◌else◌, Option, none, some,
}
use andromeda_desktop_client.Database.{MixedValue, value, Changed, add32}

pub record ScalarType (T : Type 0) : Type 0 where
  pub temp_initd : Bool
  pub temp_value : T
  pub real_initd : Bool
  pub real_value : T
  pub delta : ℕ

unfoldable pub init_db_value : {T : Type 0} → MixedValue T → ScalarType T → Option (ScalarType T)
init_db_value (value v) f =
    some
      (record { temp_initd = true; temp_value = v; real_initd = true; real_value = v; delta = 0 })
init_db_value _ f = none

unfoldable pub get_db_value : {T : Type 0} → ScalarType T → Option (MixedValue T)
get_db_value f = if f.real_initd then some (value f.real_value) else none

unfoldable pub get_value : {T : Type 0} → Bool → ScalarType T → Option T
get_value true f = if f.temp_initd then some f.temp_value else none
get_value false f = if f.real_initd then some f.real_value else none

unfoldable pub set_value :
    {T : Type 0} → (T → T → Bool) → T → Bool → ScalarType T → Changed (ScalarType T)
set_value same v is_temp f =
    let t = record f { temp_initd = true; temp_value = v } in
    if not is_temp && (not f.real_initd || not (same f.real_value v))
    then record {
      field = record t { real_initd = true; real_value = v; delta = add32 f.delta 1 };
      modified = true;
    }
    else record { field = t; modified = false }
