-- ===== src/Common/Words.antt =====
-- 64-bit unsigned arithmetic (uint64_t, and size_t on the supported targets): it wraps around.
use Prim.Native.Nat.{ℕ, ◌+◌, ◌-◌, ◌*◌, ◌%◌, ◌^◌, ◌≤◌, ◌<◌}
use mathlib.Core.Path.{◌≡◌}
use native.Mathlib.Omega.{arith}

abbrev pub word : ℕ
word = 2 ^ 64

unfoldable pub add64 : ℕ → ℕ → ℕ
add64 a b = (a + b) % word

-- The subtrahend is reduced first, so that the sum never falls below 0.
unfoldable pub sub64 : ℕ → ℕ → ℕ
sub64 a b = (a + (word - b % word)) % word

unfoldable pub mul64 : ℕ → ℕ → ℕ
mul64 a b = a * b % word

pub add64-mod : (s n : ℕ) → add64 (s % word) n ≡ (s + n) % word
unfolding add64
add64-mod s n = omega arith

pub sub64-mod : (s n : ℕ) → sub64 ((s + n) % word) n ≡ s % word
unfolding sub64
sub64-mod s n = omega arith

pub add64_small : (a b : ℕ) → a + b < word → add64 a b ≡ a + b
unfolding add64
add64_small a b h = omega arith

pub sub64_small : (a b : ℕ) → b ≤ a → a < word → sub64 a b ≡ a - b
unfolding sub64
sub64_small a b h k = omega arith
