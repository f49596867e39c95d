-- ===== src/Database.antt =====
-- src/lib/andromeda/database/fieldtypes: the fields of a database object, with their values, the
-- values that are not to be saved, and the counts of their changes. An int is a word of 32 bits in
-- two's complement, and its sums wrap around.
pub mod NullScalar
pub mod Scalar
pub mod Counter
pub mod Objects
pub mod Queries
pub mod Saves
pub mod Inserts
pub mod Edits
mod Tests
use andromeda_desktop_client.Common.{
  ℕ, ◌+◌, ◌%◌, Bool, true, false, not, ◌&&◌, ◌||◌, if◌then◌else◌, ltb, ◌==◌, Option, none, some,
}

abbrev pub word32 : ℕ
word32 = 4294967296

unfoldable pub add32 : ℕ → ℕ → ℕ
add32 a b = (a + b) % word32

-- An int above 0.
abbrev pub is_positive : ℕ → Bool
is_positive a = ltb 0 a && ltb a 2147483648

pub data MixedValue (T : Type 0) : Type 0 where
  null : MixedValue T
  int : ℕ → MixedValue T
  value : T → MixedValue T

-- A changed field, and whether it was modified, of which the database is told.
pub record Changed (F : Type 0) : Type 0 where
  pub field : F
  pub modified : Bool
