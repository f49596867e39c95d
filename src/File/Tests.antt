-- ===== src/File/Tests.antt =====
-- Tests of the model of File.cpp, and its theorems over a file that is kept in memory.
use andromeda_desktop_client.Common.{
  ℕ, ◌+◌, ◌*◌, ◌≤◌, ◌≡◌, refl, true, false, List, [], ◌∷◌, Option, none, some, max, arith, length,
}
use andromeda_desktop_client.File.{
  Pages, got, failed, Written, wrote, thrown, append, Settings, read_bytes, write_bytes,
}
use andromeda_desktop_client.File.Bytes.{Content, slice, patch}
use andromeda_desktop_client.File.Laws.{Laws}

record Memory : Type 0 where
  size : ℕ
  bytes : Content
  beyond : (k : ℕ) → size ≤ k → bytes k ≡ 0

patch-beyond :
    (f : Content) (b k : ℕ) (xs : List ℕ) → f k ≡ 0 → b + length xs ≤ k → patch f b xs k ≡ 0
unfolding patch
patch-beyond f b k [] h le = h
patch-beyond f b k (x ∷ xs) h le = ground (arith, patch-beyond f (b + 1) k xs h)

abbrev store : Memory → ℕ → List ℕ → Memory
store s at xs = record {
  size = max s.size (at + length xs);
  bytes = patch s.bytes at xs;
  beyond = λ k h. patch-beyond s.bytes at k xs (s.beyond k (omega (arith, h))) (omega (arith, h));
}

-- Pages of four bytes over one memory; nothing throws.
abbrev memory_pages : Pages
memory_pages = record {
  State = Memory;
  page_size = 4;
  file_size = λ s. s.size;
  backend_size = λ s. 0;
  exists = λ s. false;
  read_page = λ s i o n. some (slice s.bytes (i * 4 + o) n, s);
  write_page = λ s i o xs. some (store s (i * 4 + o) xs);
  truncate = λ s n. none;
  remote_changed = λ s n. s;
  read_file = λ s o n. some (slice s.bytes o n, s);
  write_file = λ s o xs. some (store s o xs);
}

abbrev from_some {ℓ} : {A : Type ℓ} → A → Option A → A
from_some a none = a
from_some a (some b) = b

abbrev empty_file : Memory
empty_file = record { size = 0; bytes = λ k. 0; beyond = λ k h. refl }

abbrev settings : Settings
settings = record {
  is_read_only = false;
  cache_none = false;
  write_mode = append;
  can_rand_write = true;
  upload_max = 0;
}

abbrev read_back : Written Memory → Option (List ℕ)
read_back (wrote s) = elim (read_bytes memory_pages settings 0 s.size s) [
  | got bs t ↦ some bs
  | failed e t ↦ none
]
read_back (thrown e s) = none

-- A write at an offset of six in an empty file fills the hole, and spans two pages.
write_after_hole :
    read_back (write_bytes memory_pages 2 settings 6 (1 ∷ 2 ∷ 3 ∷ []) empty_file)
    ≡ some (0 ∷ 0 ∷ 0 ∷ 0 ∷ 0 ∷ 0 ∷ 1 ∷ 2 ∷ 3 ∷ [])
unfolding write_bytes read_bytes slice patch
write_after_hole = refl

abbrev three : List ℕ
three = 1 ∷ 2 ∷ 3 ∷ []
