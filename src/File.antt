-- ===== src/File.antt =====
-- src/lib/andromeda/filesystem/File.cpp: reading and writing ranges of bytes through the pages.
pub mod Bytes
pub mod Laws
pub mod Reads
pub mod Writes
pub mod Holes
pub mod WriteBytes
pub mod Alignment
mod Tests
use andromeda_desktop_client.Common.{
  ℕ, zero, suc, ◌+◌, ◌-◌, ◌*◌, ◌/◌, ◌%◌, Bool, true, false, not, ◌&&◌, ◌||◌, if◌then◌else◌, ltb,
  leb, ◌==◌, List, [], ◌∷◌, ◌++◌, Option, none, some, min, max, length, take, drop, replicate,
}

-- FSConfig::WriteMode, in its order.
pub data WriteMode : Type 0 where
  upload append random : WriteMode

pub data Error : Type 0 where
  read_bounds read_only write_type write_size backend deep : Error

-- Reading and writing end with a state, by an exception or not.
pub data Read (S : Type 0) : Type 0 where
  got : List ℕ → S → Read S
  failed : Error → S → Read S

pub data Written (S : Type 0) : Type 0 where
  wrote : S → Written S
  thrown : Error → S → Written S

abbrev pub and_then : {S : Type 0} → Written S → (S → Written S) → Written S
and_then (wrote s) f = f s
and_then (thrown e s) f = thrown e s

-- What a File uses of its PageManager and PageBackend, and of the backend directly. An operation
-- that throws gives nothing, and the state is then as before.
pub record Pages : Type 1 where
  pub State : Type 0
  pub page_size : ℕ
  pub file_size : State → ℕ
  pub backend_size : State → ℕ
  pub exists : State → Bool
  pub read_page : State → ℕ → ℕ → ℕ → Option (List ℕ × State)
  pub write_page : State → ℕ → ℕ → List ℕ → Option State
  pub truncate : State → ℕ → Option State
  pub remote_changed : State → ℕ → State
  pub read_file : State → ℕ → ℕ → Option (List ℕ × State)
  pub write_file : State → ℕ → List ℕ → Option State

-- The options and the configuration that the branches test.
pub record Settings : Type 0 where
  pub is_read_only : Bool
  pub cache_none : Bool
  pub write_mode : WriteMode
  pub can_rand_write : Bool
  pub upload_max : ℕ

-- GetWriteMode: no more than APPEND where the backend cannot write at random.
unfoldable pub get_write_mode : Settings → WriteMode
get_write_mode c =
    if c.can_rand_write
    then c.write_mode
    else elim c.write_mode [ upload ↦ upload | append ↦ append | random ↦ append ]

module _ (P : Pages) where
  open P use {
    State, page_size, file_size, backend_size, exists, read_page, write_page, truncate,
    remote_changed, read_file, write_file,
  }

  abbrev pub prepend : List ℕ → Read State → Read State
  prepend bs (got cs s) = got (bs ++ cs) s
  prepend bs (failed e s) = failed e s

  -- The part of the range from `byte` to `stop` that lies in the page of `byte`.
  abbrev pub page_of : ℕ → ℕ
  page_of byte = byte / page_size

  abbrev pub offset_of : ℕ → ℕ
  offset_of byte = byte - page_of byte * page_size

  abbrev pub length_of : ℕ → ℕ → ℕ
  length_of byte stop = min (stop - byte) (page_size - offset_of byte)

  -- The loop of ReadBytes; each round reads at least one byte.
  unfoldable pub read_loop : ℕ → ℕ → ℕ → State → Read State
  read_loop zero byte stop s = got [] s
  read_loop (suc fuel) byte stop s = elim (ltb byte stop) [
    | false ↦ got [] s
    | true ↦ elim (read_page s (page_of byte) (offset_of byte) (length_of byte stop)) [
      | none ↦ failed backend s
      | some (bs, t) ↦ prepend bs (read_loop fuel (byte + length_of byte stop) stop t)
    ]
  ]

  abbrev pub read_answer : State → Option (List ℕ × State) → Read State
  read_answer s none = failed backend s
  read_answer s (some (bs, t)) = got bs t

  unfoldable pub read_bytes : Settings → ℕ → ℕ → State → Read State
  unfolding read_loop
  read_bytes c offset len s =
      if ltb (file_size s) (offset + len)
      then failed read_bounds s
      else if c.cache_none
      then read_answer s (read_file s offset len)
      else read_loop len offset (offset + len) s

  unfoldable pub read_bytes_max : Settings → ℕ → ℕ → State → Read State
  unfolding read_bytes
  read_bytes_max c offset max_length s =
      if leb (file_size s) offset
      then got [] s
      else read_bytes c offset (min (file_size s - offset) max_length) s

  -- The loop of WriteBytes; each round writes at least one byte.
  unfoldable pub write_loop : ℕ → ℕ → ℕ → List ℕ → State → Written State
  write_loop zero byte stop buffer s = wrote s
  write_loop (suc fuel) byte stop buffer s = elim (ltb byte stop) [
    | false ↦ wrote s
    | true ↦
        elim (write_page s (page_of byte) (offset_of byte) (take (length_of byte stop) buffer)) [
          | none ↦ thrown backend s
          | some t ↦
              write_loop fuel (byte + length_of byte stop) stop (drop (length_of byte stop) buffer)
                t
        ]
  ]

  -- FixPageAlignment: the number of bytes it takes from the buffer, and the bytes it sends.
  unfoldable pub from_zero : ℕ → ℕ → ℕ → ℕ
  from_zero old offset len =
      min (offset - old) (min (offset + len - old) (page_size - old % page_size))

  unfoldable pub from_buffer : ℕ → ℕ → ℕ → ℕ
  unfolding from_zero
  from_buffer old offset len =
      let write_size = min (offset + len - old) (page_size - old % page_size) in
      if old % page_size == 0
      then 0
      else if ltb (from_zero old offset len) write_size
      then write_size - from_zero old offset len
      else 0

  unfoldable pub fix_page_alignment : ℕ → List ℕ → State → Written State
  unfolding from_zero from_buffer
  fix_page_alignment offset buffer s =
      let old = backend_size s in
      let sent =
        replicate (from_zero old offset (length buffer)) 0
        ++ take (from_buffer old offset (length buffer)) buffer in
      if old % page_size == 0 then wrote s else elim (write_file s old sent) [
        | none ↦ thrown backend s
        | some t ↦ wrote (
            remote_changed t
              (old + min (offset + length buffer - old) (page_size - old % page_size)))
      ]

  -- The loop of FillWriteHole, over the writing of one range.
  unfoldable pub fill_loop :
      (ℕ → List ℕ → State → Written State) → ℕ → ℕ → ℕ → State → Written State
  fill_loop write zero hole offset s = wrote s
  fill_loop write (suc fuel) hole offset s = elim (ltb hole offset) [
    | false ↦ wrote s
    | true ↦
        and_then (write hole (replicate (min (offset - hole) page_size) 0) s)
          (λ t. fill_loop write fuel (hole + page_size) offset t)
  ]

  unfoldable pub fill_write_hole : (ℕ → List ℕ → State → Written State) → ℕ → State → Written State
  unfolding fill_loop
  fill_write_hole write offset s =
      if ltb (file_size s) offset
      then fill_loop write (offset - file_size s) (file_size s) offset s
      else wrote s

  -- WriteBytes with the cache off.
  unfoldable pub write_direct : Settings → ℕ → List ℕ → State → Written State
  write_direct c offset buffer s =
      let refused : Bool = elim (get_write_mode c) [
        | upload ↦ true
        | append ↦ not (offset == file_size s)
        | random ↦ false
      ] in
      if refused then thrown write_type s else elim (write_file s offset buffer) [
        | none ↦ thrown backend s
        | some t ↦ wrote (remote_changed t (max (file_size s) (offset + length buffer)))
      ]

  abbrev pub write_pages : ℕ → List ℕ → State → Written State
  write_pages offset buffer s = write_loop (length buffer) offset (offset + length buffer) buffer s

  -- WriteBytes through the pages, by the write mode, over the filling of the hole before a range.
  unfoldable pub write_cached :
      (ℕ → State → Written State) → WriteMode → Settings → ℕ → List ℕ → State → Written State
  unfolding fix_page_alignment from_buffer write_loop
  write_cached fill random c offset buffer s = write_pages offset buffer s
  write_cached fill upload c offset buffer s =
      if exists s
      then thrown write_type s
      else if ltb 0 c.upload_max && ltb c.upload_max (offset + length buffer)
      then thrown write_size s
      else and_then (fill offset s) (write_pages offset buffer)
  write_cached fill append c offset buffer s =
      if not (exists s)
      then and_then (fill offset s) (write_pages offset buffer)
      else if ltb offset (backend_size s)
      then thrown write_type s
      else let used = from_buffer (backend_size s) offset (length buffer) in
        and_then (fix_page_alignment offset buffer s)
          (λ t. and_then (fill (offset + used) t) (write_pages (offset + used) (drop used buffer)))

  -- WriteBytes. It calls itself through FillWriteHole for the bytes of a hole; `depth` bounds the
  -- calls.
  unfoldable pub write_bytes : ℕ → Settings → ℕ → List ℕ → State → Written State
  unfolding write_direct write_cached fill_write_hole get_write_mode
  write_bytes zero c offset buffer s = thrown deep s
  write_bytes (suc depth) c offset buffer s =
      if c.is_read_only
      then thrown read_only s
      else if c.cache_none
      then write_direct c offset buffer s
      else write_cached (fill_write_hole (write_bytes depth c)) (get_write_mode c) c offset buffer s

  unfoldable pub truncate_file : Settings → ℕ → State → Written State
  unfolding get_write_mode
  truncate_file c new_size s =
      let refused : Bool = elim (get_write_mode c) [
        | upload ↦ true
        | append ↦ not (new_size == 0)
        | random ↦ false
      ] in
      if c.is_read_only
      then thrown read_only s
      else if refused
      then thrown write_type s
      else elim (truncate s new_size) [ none ↦ thrown backend s | some t ↦ wrote t ]
