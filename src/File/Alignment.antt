-- ===== src/File/Alignment.antt =====
-- FixPageAlignment of File.cpp: what it sends to fill up the last page on the backend.
use native.Mathlib.Nat.{mod-add-mod, mod_self}
use andromeda_desktop_client.Common.{
  ℕ, ◌+◌, ◌-◌, ◌%◌, ◌≤◌, ◌<◌, ◌≡◌, ◌≢◌, sym, ap, ◌∙◌, ◌⊎◌, inl, inr, List, ◌++◌, arith, length, min,
  take, replicate, length-append, length-take, length-replicate, dec_lt,
}
use andromeda_desktop_client.File.{Pages, from_zero, from_buffer}

fill_page : (old s : ℕ) → 0 < s → (old + (s - old % s)) % s ≡ 0
fill_page old s h =
    let whole : old % s + (s - old % s) ≡ s = grind arith in
    sym (mod-add-mod old s (s - old % s)) ∙ ap (λ t. t % s) whole ∙ mod_self s

module _ (P : Pages) where
  open P use {page_size}

  -- Where a file ends inside a page on the backend, FixPageAlignment sends as many bytes as it
  -- tells RemoteChanged of: zeroes up to the offset and then the first bytes of the buffer, no more
  -- than the buffer has. Afterwards the buffer is used up, or the file on the backend ends with a
  -- page and the rest of the buffer starts at its end or behind it.
  pub from_buffer_lem :
      (old offset : ℕ) (buffer : List ℕ)
      → 0 < page_size
      → old % page_size ≢ 0
      → old ≤ offset
      → let used = from_buffer P old offset (length buffer) in
        let size = min (offset + length buffer - old) (page_size - old % page_size) in
        (length (replicate (from_zero P old offset (length buffer)) 0 ++ take used buffer) ≡ size)
        × (used ≤ length buffer)
        × ((used ≡ length buffer) ⊎ (((old + size) % page_size ≡ 0) × (old + size ≤ offset + used)))
  unfolding from_buffer from_zero
  from_buffer_lem old offset buffer pos uneven le =
      let len = length buffer in
      let room = page_size - old % page_size in
      let size = min (offset + len - old) room in
      let zeros = min (offset - old) size in
      let used : from_buffer P old offset len ≡ size - zeros = ground arith in
      rw used (
        omega (
          arith,
          length-append (replicate zeros 0) (take (size - zeros) buffer),
          length-replicate {A = ℕ} zeros 0,
          length-take (size - zeros) buffer,
          le,
        ),
        omega (arith, le),
        elim (dec_lt (offset + len - old) room) [
          | yes short ↦ inl (omega (arith, short, le))
          | no long ↦
              let full : size ≡ room = omega (arith, long) in
              inr (
                ap (λ t. (old + t) % page_size) full ∙ fill_page old page_size pos,
                omega (arith, le),
              )
        ],
      )
