-- ===== src/Database/Counter.antt =====
-- CounterType of src/lib/andromeda/database/fieldtypes/CounterType.hpp.
use andromeda_desktop_client.Common.{ℕ, true, false, if◌then◌else◌, ◌==◌, Option, none, some}
use andromeda_desktop_client.Database.{MixedValue, int, Changed, add32}

pub record CounterType : Type 0 where
  pub count : ℕ
  pub delta : ℕ

unfoldable pub init_db_value : {T : Type 0} → MixedValue T → CounterType → Option CounterType
init_db_value (int n) c = some (record { count = n; delta = 0 })
init_db_value _ c = none

unfoldable pub delta_value : ℕ → CounterType → Changed CounterType
delta_value d c = if d == 0 then record { field = c; modified = false } else record {
  field = record { count = add32 c.count d; delta = add32 c.delta d };
  modified = true;
}
