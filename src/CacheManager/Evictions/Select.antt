-- ===== src/CacheManager/Evictions/Select.antt =====
-- Which pages DoPageEvictions selects, with every manager alive, and with managers being deleted.
use mathlib.Core.List.{reverse-cons, reverse-append, append_assoc, append-nil, reverse-reverse}
use andromeda_desktop_client.Common.{
  ℕ, zero, suc, ◌+◌, ◌≤◌, ◌<◌, ◌≡◌, refl, sym, ◌∙◌, ap, Bool, true, false, ltb, List, [], ◌∷◌, ◌++◌,
  reverse, some, arith, get_elem?, add64, length, length-reverse, word, add64_small, Bool-cases,
  ltb-false→le, inl, inr,
}
use andromeda_desktop_client.OrderedMap.{entries}
use andromeda_desktop_client.CacheManager.Sizes.{total_size}
use andromeda_desktop_client.CacheManager.Counted.{size_of}
use andromeda_desktop_client.CacheManager.{CacheManager, PageInfo}
use andromeda_desktop_client.CacheManager.Evictions.{
  selected, margin, over_margin, read_at, select, select_evicts,
}

get_elem?-middle {ℓ} :
    {A : Type ℓ} (r : List A) (x : A) (t : List A) → get_elem? (r ++ x ∷ t) (length r) ≡ some x
get_elem?-middle [] x t = refl
get_elem?-middle (y ∷ r) x t = get_elem?-middle r x t

total_size-append :
    (xs ys : List (ℕ × PageInfo)) → total_size (xs ++ ys) ≡ total_size xs + total_size ys
unfolding total_size
total_size-append [] ys = omega arith
total_size-append ((k, i) ∷ xs) ys = omega (arith, total_size-append xs ys)

-- The last entry before the base of the iterator.
reverse_step :
    (x : ℕ × PageInfo) (r t : List (ℕ × PageInfo)) → reverse (x ∷ r) ++ t ≡ reverse r ++ x ∷ t
reverse_step x r t = ap (λ l. l ++ t) (reverse-cons x r) ∙ append_assoc (reverse r) (x ∷ []) t

reverse-snoc : (x : ℕ × PageInfo) (v : List (ℕ × PageInfo)) → reverse (v ++ x ∷ []) ≡ x ∷ reverse v
reverse-snoc x v = reverse-append v (x ∷ [])

-- What the walk has to reach: the visited entries are the oldest ones, oldest first, and without
-- them the memory is within its limit by the margin.
pub record Suffices (c : CacheManager) (visited : List (ℕ × PageInfo)) : Type 0 where
  pub kept : List (ℕ × PageInfo)
  pub oldest : entries c.page_queue ≡ kept ++ reverse visited
  pub enough : size_of c.page_queue + margin c ≤ c.memory_limit + total_size visited

-- The sums that the loop makes stay below 2^64, and the margin is no larger than the limit.
pub record Fits (c : CacheManager) : Type 0 where
  pub exact : c.current_total ≡ size_of c.page_queue
  pub sums : size_of c.page_queue + c.memory_limit < word
  pub margin_le : margin c ≤ c.memory_limit

read_at-last :
    (c : CacheManager) (x : ℕ × PageInfo) (r t : List (ℕ × PageInfo))
    → entries c.page_queue ≡ reverse (x ∷ r) ++ t
    → read_at c (some (length (x ∷ r))) ≡ some (length r, x)
read_at-last c x r t h = rw (get_last x r t h, read_at)
  where
    get_last :
        (x : ℕ × PageInfo) (r t : List (ℕ × PageInfo))
        → entries c.page_queue ≡ reverse (x ∷ r) ++ t
        → get_elem? (entries c.page_queue) (length r) ≡ some x
    get_last x r t h =
        ap (λ l. get_elem? l (length r)) (h ∙ reverse_step x r t)
        ∙ ap (get_elem? (reverse r ++ x ∷ t)) (sym (length-reverse r))
        ∙ get_elem?-middle (reverse r) x t

total_size-reverse : (v : List (ℕ × PageInfo)) → total_size (reverse v) ≡ total_size v
unfolding total_size
total_size-reverse [] = refl
total_size-reverse ((k, i) ∷ v) =
    ap total_size (reverse-cons (k, i) v)
    ∙ total_size-append (reverse v) ((k, i) ∷ [])
    ∙ omega (arith, total_size-reverse v)

total_size-snoc :
    (v : List (ℕ × PageInfo)) (x : ℕ × PageInfo)
    → total_size (v ++ x ∷ []) ≡ total_size v + x.1.page_size
unfolding total_size
total_size-snoc v (k, i) = total_size-append v ((k, i) ∷ []) ∙ omega arith

-- The sizes of a split of the queue.
split_sizes :
    (c : CacheManager) (r v : List (ℕ × PageInfo))
    → entries c.page_queue ≡ reverse r ++ reverse v
    → size_of c.page_queue ≡ total_size r + total_size v
split_sizes c r v h =
    ap total_size h
    ∙ total_size-append (reverse r) (reverse v)
    ∙ omega (arith, total_size-reverse r, total_size-reverse v)

-- The test of the loop, without wrapping.
over_margin-small :
    (c : CacheManager) (cleaned : ℕ)
    → Fits c
    → cleaned ≤ size_of c.page_queue
    → over_margin c cleaned ≡ ltb (c.memory_limit + cleaned) (size_of c.page_queue + margin c)
unfolding over_margin
over_margin-small c cleaned f h = rw (
  f.exact,
  add64_small c.memory_limit cleaned (omega (arith, f.sums)),
  add64_small (size_of c.page_queue) (margin c) (omega (arith, f.sums, f.margin_le)),
)

total_size-cons :
    (x : ℕ × PageInfo) (r : List (ℕ × PageInfo)) → total_size (x ∷ r) ≡ x.1.page_size + total_size r
unfolding total_size
total_size-cons (k, i) r = refl

total_size-nil : total_size [] ≡ 0
unfolding total_size
total_size-nil = refl

-- The entries that are visited when the loop stops are enough.
stop_enough :
    (c : CacheManager) (cleaned : ℕ)
    → Fits c
    → cleaned ≤ size_of c.page_queue
    → over_margin c cleaned ≡ false
    → size_of c.page_queue + margin c ≤ c.memory_limit + cleaned
stop_enough c cleaned f h stop = ltb-false→le _ _ (sym (over_margin-small c cleaned f h) ∙ stop)

-- When every entry is visited the loop stops.
stop_whole :
    (c : CacheManager) (cleaned : ℕ)
    → Fits c
    → cleaned ≡ size_of c.page_queue
    → over_margin c cleaned ≡ false
stop_whole c cleaned f h =
    over_margin-small c cleaned f (omega arith) ∙ not_ltb _ _ (omega (arith, f.margin_le))
  where
    not_ltb : (a b : ℕ) → b ≤ a → ltb a b ≡ false
    not_ltb a b h = ground arith

select-Suffices :
    (alive : ℕ → Bool) (fuel : ℕ) (c : CacheManager) (r visited : List (ℕ × PageInfo))
    → ((mgr : ℕ) → alive mgr ≡ true)
    → Fits c
    → entries c.page_queue ≡ reverse r ++ reverse visited
    → length r < fuel
    → (v : List (ℕ × PageInfo)) × (select alive fuel c
          (some (length r))
          (total_size visited)
          visited
        ≡ selected c v)
      × Suffices c v
unfolding select
select-Suffices alive zero c r visited all f h lt = absurd (omega arith)
select-Suffices alive (suc fuel) c [] visited all f h lt =
    let whole : total_size visited ≡ size_of c.page_queue =
      omega (arith, split_sizes c [] visited h, total_size-nil) in
    let stop = stop_whole c (total_size visited) f whole in
    (
      visited,
      rw (stop, select),
      record { kept = []; oldest = h; enough = omega (arith, whole, f.margin_le) },
    )
select-Suffices alive (suc fuel) c (x ∷ r) visited all f h lt =
    let sizes = split_sizes c (x ∷ r) visited h in
    let cons = total_size-cons x r in
    let le : total_size visited ≤ size_of c.page_queue = omega (arith, sizes) in
    elim (Bool-cases (over_margin c (total_size visited))) [
      | inl go ↦
          let v' = visited ++ x ∷ [] in
          let cleaned : add64 (total_size visited) x.1.page_size ≡ total_size v' =
            add64_small _ _ (omega (arith, sizes, cons, f.sums))
            ∙ sym (total_size-snoc visited x) in
          let split : entries c.page_queue ≡ reverse r ++ reverse v' =
            h
            ∙ reverse_step x r (reverse visited)
            ∙ ap (λ l. reverse r ++ l) (sym (reverse-snoc x visited)) in
          let (v, e, enough) = select-Suffices alive fuel c r v' all f split (omega arith) in
          (
            v,
            rw (go, select)
                (rw (read_at-last c x r (reverse visited) h, select)
                  (rw (all x.1.page_mgr, select) (rw cleaned e))),
            enough,
          )
      | inr stop ↦ (
        visited,
        rw (stop, select),
        record {
          kept = reverse (x ∷ r);
          oldest = h;
          enough = stop_enough c (total_size visited) f le stop;
        },
      )
    ]

-- With every manager alive the walk never leaves the list and changes nothing: it selects the
-- oldest pages, in their order, and enough of them that the memory without them is within its limit
-- by the margin; given that the total is exact, its sum with the limit fits 64 bits, and the margin
-- is no larger than the limit.
pub select_evicts-Suffices :
    (alive : ℕ → Bool) (c : CacheManager)
    → ((mgr : ℕ) → alive mgr ≡ true)
    → Fits c
    → (v : List (ℕ × PageInfo)) × (select_evicts alive c ≡ selected c v) × Suffices c v
unfolding select_evicts
select_evicts-Suffices alive c all f =
    let r = reverse (entries c.page_queue) in
    let split : entries c.page_queue ≡ reverse r ++ reverse [] =
      sym (append-nil _ ∙ reverse-reverse (entries c.page_queue)) in
    let (v, e, enough) =
      select-Suffices alive (suc (suc (length (entries c.page_queue)))) c r [] all f split
        (omega (arith, length-reverse (entries c.page_queue))) in
    (v, start v e, enough)
  where
    start :
        (v : List (ℕ × PageInfo))
        → select alive
            (suc (suc (length (entries c.page_queue))))
            c
            (some (length (reverse (entries c.page_queue))))
            (total_size [])
            []
          ≡ selected c v
        → select alive
            (suc (suc (length (entries c.page_queue))))
            c
            (some (length (entries c.page_queue)))
            0
            []
          ≡ selected c v
    start v e = rw (length-reverse (entries c.page_queue), total_size-nil) at e
