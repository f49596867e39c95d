-- ===== src/CacheManager/Counted.antt =====
-- A queue of CacheManager.cpp with its running total: what erasing, enqueueing and resizing do to
-- both.
use andromeda_desktop_client.Common.{
  ℕ, ◌+◌, ◌%◌, ◌≡◌, sym, ◌∙◌, ap, ◌≢◌, none, some, arith, word, add64, sub64, add64-mod, sub64-mod,
}
use andromeda_desktop_client.OrderedMap
use andromeda_desktop_client.OrderedMap.{entries}
use andromeda_desktop_client.OrderedMap.Spec.{find-entry_of, erase-without}
use andromeda_desktop_client.OrderedMap.Invariant.{
  IsLinked, erase-IsLinked, enqueue_front-IsLinked, absent_of_find,
}
use andromeda_desktop_client.OrderedMap.Laws.{assign-IsLinked, assign-replace, find-erase}
use andromeda_desktop_client.CacheManager.Sizes.{
  total_size, total_size-without, total_size-replace, entry_of-key,
}
use andromeda_desktop_client.CacheManager.{PageQueue, PageInfo, queue_impl}

abbrev pub size_of : PageQueue → ℕ
size_of q = total_size (entries q)

-- A queue with its running total: linked, and the total is the sum of the sizes, modulo 2^64.
pub record IsCounted (q : PageQueue) (total : ℕ) : Type 0 where
  pub linked : IsLinked queue_impl q
  pub counted : total ≡ size_of q % word

pub size_of-erase :
    {q : PageQueue} (k : ℕ) (e : ℕ × PageInfo)
    → IsLinked queue_impl q
    → OrderedMap.find queue_impl q k ≡ some e
    → size_of (OrderedMap.erase queue_impl q k).0 + e.1.page_size ≡ size_of q
size_of-erase {q} k e v h =
    ap (λ es. total_size es + e.1.page_size) (erase-without queue_impl k v).0
    ∙ total_size-without k e (entries q) (sym (find-entry_of queue_impl k v).0 ∙ h)

pub size_of-assign :
    {q : PageQueue} (k : ℕ) (e x : ℕ × PageInfo)
    → IsLinked queue_impl q
    → OrderedMap.find queue_impl q k ≡ some e
    → size_of (OrderedMap.assign queue_impl q k x) + e.1.page_size ≡ size_of q + x.1.page_size
size_of-assign {q} k e x v h =
    ap (λ es. total_size es + e.1.page_size) (assign-replace queue_impl k x v)
    ∙ total_size-replace k e x (entries q) (sym (find-entry_of queue_impl k v).0 ∙ h)

pub erase-IsCounted :
    {q : PageQueue} {total : ℕ} (k : ℕ) (e : ℕ × PageInfo)
    → IsCounted q total
    → OrderedMap.find queue_impl q k ≡ some e
    → IsCounted (OrderedMap.erase queue_impl q k).0 (sub64 total e.1.page_size)
erase-IsCounted {q} {total} k e v h = record {
  linked = erase-IsLinked queue_impl k v.linked;
  counted =
      ap (λ t. sub64 t e.1.page_size)
        (v.counted ∙ ap (λ (t : ℕ). t % word) (sym (size_of-erase k e v.linked h)))
      ∙ sub64-mod (size_of (OrderedMap.erase queue_impl q k).0) e.1.page_size;
}

pub size_of-enqueue_front :
    (q : PageQueue) (e : ℕ × PageInfo)
    → size_of (OrderedMap.enqueue_front queue_impl q e) ≡ size_of q + e.1.page_size
unfolding OrderedMap.enqueue_front total_size
size_of-enqueue_front q e = omega arith

pub enqueue-IsCounted :
    {q : PageQueue} {total : ℕ} (e : ℕ × PageInfo)
    → IsCounted q total
    → OrderedMap.find queue_impl q e.0 ≡ none
    → IsCounted (OrderedMap.enqueue_front queue_impl q e) (add64 total e.1.page_size)
enqueue-IsCounted {q} {total} e v h = record {
  linked = enqueue_front-IsLinked queue_impl e v.linked (absent_of_find queue_impl e.0 v.linked h);
  counted =
      ap (λ t. add64 t e.1.page_size) v.counted
      ∙ add64-mod (size_of q) e.1.page_size
      ∙ ap (λ (t : ℕ). t % word) (sym (size_of-enqueue_front q e));
}

pub resize_total :
    (total before after old new : ℕ)
    → total ≡ before % word
    → after + old ≡ before + new
    → add64 total (sub64 new old) ≡ after % word
unfolding add64 sub64
resize_total total before after old new h p = omega arith

pub assign-IsCounted :
    {q : PageQueue} {total : ℕ} (k : ℕ) (e x : ℕ × PageInfo)
    → IsCounted q total
    → OrderedMap.find queue_impl q k ≡ some e
    → x.0 ≡ k
    → IsCounted
        (OrderedMap.assign queue_impl q k x)
        (add64 total (sub64 x.1.page_size e.1.page_size))
assign-IsCounted {q} {total} k e x v h p = record {
  linked = assign-IsLinked queue_impl k x v.linked p;
  counted =
      resize_total total (size_of q) (size_of (OrderedMap.assign queue_impl q k x)) e.1.page_size
        x.1.page_size v.counted (size_of-assign k e x v.linked h);
}

-- The key of an entry that find gives is the key that was asked for.
pub find-key :
    {q : PageQueue} (k : ℕ) (e : ℕ × PageInfo)
    → IsLinked queue_impl q
    → OrderedMap.find queue_impl q k ≡ some e
    → e.0 ≡ k
find-key {q} k e v h = entry_of-key k e (entries q) (sym (find-entry_of queue_impl k v).0 ∙ h)

-- What find still gives after an erase was there before, under another key.
pub erase-ne :
    {q : PageQueue} (page k : ℕ) (e : ℕ × PageInfo)
    → IsLinked queue_impl q
    → OrderedMap.find queue_impl (OrderedMap.erase queue_impl q page).0 k ≡ some e
    → k ≢ page
erase-ne {q} page k e v h = ground (arith, find-erase queue_impl k page v)

pub find-erase-some :
    {q : PageQueue} (page k : ℕ) (e : ℕ × PageInfo)
    → IsLinked queue_impl q
    → OrderedMap.find queue_impl (OrderedMap.erase queue_impl q page).0 k ≡ some e
    → OrderedMap.find queue_impl q k ≡ some e
find-erase-some {q} page k e v h = ground (arith, find-erase queue_impl k page v)
