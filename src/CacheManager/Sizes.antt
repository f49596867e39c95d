-- ===== src/CacheManager/Sizes.antt =====
-- The sizes of the queued pages, summed as the PrintStatus functions of CacheManager.cpp do.
use andromeda_desktop_client.Common.{
  ℕ, ◌+◌, ◌≤◌, ◌≡◌, ◌∙◌, List, [], ◌∷◌, none, some, ℕ_discrete, arith,
}
use andromeda_desktop_client.OrderedMap.Spec.{entry_of, without}
use andromeda_desktop_client.OrderedMap.Laws.{replace, entry_of-without_ne}
use andromeda_desktop_client.CacheManager.{PageInfo, queue_impl}

unfoldable pub total_size : List (ℕ × PageInfo) → ℕ
total_size [] = 0
total_size ((k, i) ∷ es) = i.page_size + total_size es

pub total_size-without :
    (k : ℕ) (e : ℕ × PageInfo) (es : List (ℕ × PageInfo))
    → entry_of queue_impl k es ≡ some e
    → total_size (without queue_impl k es) + e.1.page_size ≡ total_size es
unfolding total_size entry_of without
total_size-without k e [] h = absurd (cc)
total_size-without k e ((j, i) ∷ es) h = ground (arith, total_size-without k e es)

pub total_size-replace :
    (k : ℕ) (e x : ℕ × PageInfo) (es : List (ℕ × PageInfo))
    → entry_of queue_impl k es ≡ some e
    → total_size (replace queue_impl k x es) + e.1.page_size ≡ total_size es + x.1.page_size
unfolding total_size entry_of replace
total_size-replace k e x [] h = absurd (cc)
total_size-replace k e x ((j, i) ∷ es) h = ground (arith, total_size-replace k e x es)

pub entry_of-key :
    (k : ℕ) (e : ℕ × PageInfo) (es : List (ℕ × PageInfo))
    → entry_of queue_impl k es ≡ some e
    → e.0 ≡ k
unfolding entry_of
entry_of-key k e [] h = absurd (cc)
entry_of-key k e (x ∷ es) h = ground (arith, entry_of-key k e es)

abbrev pub DistinctKeys : List (ℕ × PageInfo) → Type 0
DistinctKeys [] = Unit {0}
DistinctKeys (e ∷ es) = (entry_of queue_impl e.0 es ≡ none) × DistinctKeys es

entry_of_head :
    (e : ℕ × PageInfo) (es : List (ℕ × PageInfo)) → entry_of queue_impl e.0 (e ∷ es) ≡ some e
unfolding entry_of
entry_of_head e es = ground arith

-- Without the head of a list, the other entries are still all among those of the other list.
subset_tail :
    (d : ℕ × PageInfo) (ds es : List (ℕ × PageInfo)) (j : ℕ) (e : ℕ × PageInfo)
    → entry_of queue_impl d.0 ds ≡ none
    → (entry_of queue_impl j (d ∷ ds) ≡ some e → entry_of queue_impl j es ≡ some e)
    → entry_of queue_impl j ds ≡ some e
    → entry_of queue_impl j (without queue_impl d.0 es) ≡ some e
unfolding entry_of
subset_tail d ds es j e fresh h p = elim (ℕ_discrete j d.0) [
  | yes q ↦ absurd (ground arith)
  | no q ↦ entry_of-without_ne queue_impl j d.0 es q ∙ h (ground arith)
]

-- A list of entries that are all among those of another one is no larger.
pub total_size_mono :
    (ds es : List (ℕ × PageInfo))
    → DistinctKeys ds
    → ((k : ℕ) (e : ℕ × PageInfo)
        → entry_of queue_impl k ds ≡ some e
        → entry_of queue_impl k es ≡ some e)
    → total_size ds ≤ total_size es
unfolding total_size
total_size_mono [] es d h = omega arith
total_size_mono ((k, i) ∷ ds) es d h = omega (
  arith,
  total_size_mono ds (without queue_impl k es) d.1 rest,
  total_size-without k (k, i) es (h k (k, i) (entry_of_head (k, i) ds)),
)
  where
    rest :
        (j : ℕ) (e : ℕ × PageInfo)
        → entry_of queue_impl j ds ≡ some e
        → entry_of queue_impl j (without queue_impl k es) ≡ some e
    rest j e = subset_tail (k, i) ds es j e d.0 (h j e)
