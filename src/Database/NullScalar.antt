-- ===== src/Database/NullScalar.antt =====
-- NullScalarType of src/lib/andromeda/database/fieldtypes/ScalarType.hpp.
use andromeda_desktop_client.Common.{
  ℕ, Bool, true, false, not, ◌&&◌, if◌then◌else◌, Option, none, some,
}
use andromeda_desktop_client.Database.{MixedValue, null, int, value, Changed, add32}

pub record NullScalarType (T : Type 0) : Type 0 where
  pub temp_null : Bool
  pub temp_value : T
  pub real_null : Bool
  pub real_value : T
  pub delta : ℕ

-- The constructor without a default, over T{}.
abbrev pub unset : {T : Type 0} → T → NullScalarType T
unset blank = record {
  temp_null = true;
  temp_value = blank;
  real_null = true;
  real_value = blank;
  delta = 0;
}

-- Of a value of another type, get_to throws.
unfoldable pub init_db_value :
    {T : Type 0} → MixedValue T → NullScalarType T → Option (NullScalarType T)
init_db_value null f = some (record f { temp_null = true; real_null = true; delta = 0 })
init_db_value (int n) f = none
init_db_value (value v) f =
    some
      (record { temp_null = false; temp_value = v; real_null = false; real_value = v; delta = 0 })

unfoldable pub get_db_value : {T : Type 0} → NullScalarType T → MixedValue T
get_db_value f = if f.real_null then null else value f.real_value

unfoldable pub try_get_value : {T : Type 0} → Bool → NullScalarType T → Option T
try_get_value true f = if f.temp_null then none else some f.temp_value
try_get_value false f = if f.real_null then none else some f.real_value

unfoldable pub set_value :
    {T : Type 0} → (T → T → Bool) → T → Bool → NullScalarType T → Changed (NullScalarType T)
set_value same v is_temp f =
    let t = record f { temp_null = false; temp_value = v } in
    if not is_temp && not (same f.real_value v)
    then record {
      field = record t { real_null = false; real_value = v; delta = add32 f.delta 1 };
      modified = true;
    }
    else record { field = t; modified = false }

unfoldable pub set_null : {T : Type 0} → Bool → NullScalarType T → Changed (NullScalarType T)
set_null is_temp f =
    let t = record f { temp_null = true } in
    if not is_temp && not f.real_null
    then record { field = record t { real_null = true; delta = add32 f.delta 1 }; modified = true }
    else record { field = t; modified = false }
