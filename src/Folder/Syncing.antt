-- ===== src/Folder/Syncing.antt =====
-- What SyncContents of Folder.cpp makes of the items of a folder.
use andromeda_desktop_client.Common.{
  ◌≡◌, ◌≢◌, refl, sym, ◌∙◌, ap, Bool, true, false, not, ◌&&◌, if◌then◌else◌, subst, List, [], ◌∷◌,
  Option, none, some, inl, inr, arith, Bool-cases, Option-cases,
}
use andromeda_desktop_client.Folder.Names.{
  Name, name_discrete, is_valid, find_item, put_item, Unique, find-put_item, find_item-here,
  find_item-there, put_item-Unique, emplace_item, emplace_item-Unique,
}
use andromeda_desktop_client.Folder.{
  Item, Items, Server, Folder, json, Outcome, done, thrown, NewItems, updated, Synced, synced,
  broken, with_item, sync_new, stays, drop_old, after_new, sync_contents, emplace_all,
}

module _ {D : Type 0} (server : Server D) where
  -- What stands under a name once the new items are in.
  abbrev merged : Option (Bool × D) → Option Item → Option Item
  merged none o = o
  merged (some d) o = updated server o d

  -- What stands under a name in the end: a listed item, refreshed or new, or else a file that the
  -- server does not have yet.
  abbrev pub kept : Option (Bool × D) → Option Item → Option Item
  kept none none = none
  kept none (some i) = if i.is_file && not i.on_backend then some i else none
  kept (some d) o = updated server o d

  abbrev Merges : NewItems server → Items → Synced server → Type 0
  Merges new items (synced t) =
      ((j : Name) → find_item j t ≡ merged (find_item j new) (find_item j items)) × Unique t
  Merges new items (broken t) =
      ((j : Name) (i : Item) → find_item j items ≡ some i → find_item j t ≢ none) × Unique t

  sync_new-invalid :
      (name : Name) (d : Bool × D) (new : NewItems server) (items : Items)
      → is_valid name ≡ false
      → sync_new server ((name, d) ∷ new) items ≡ broken items
  unfolding sync_new
  sync_new-invalid name d new items e = rw (sync_new, e) refl

  sync_new-valid :
      (name : Name) (d : Bool × D) (new : NewItems server) (items : Items)
      → is_valid name ≡ true
      → sync_new server ((name, d) ∷ new) items
        ≡ with_item server name items
            (λ t. sync_new server new t)
            (updated server (find_item name items) d)
  unfolding sync_new
  sync_new-valid name d new items e = rw (sync_new, e) refl

  module _ (name : Name) (d : Bool × D) (new : NewItems server) (items : Items)
      (fresh : find_item name new ≡ none) (i : Item)
      (is : updated server (find_item name items) d ≡ some i) where
    merged-put :
        (j : Name)
        → merged (find_item j new) (find_item j (put_item name i items))
          ≡ merged (find_item j ((name, d) ∷ new)) (find_item j items)
    merged-put j = elim (name_discrete name j) [
      | yes p ↦
          let here : find_item j (put_item name i items) ≡ some i =
            ground (arith, find-put_item j name i items) in
          let gone : find_item j new ≡ none = ap (λ n. find_item n new) (sym p) ∙ fresh in
          let listed : find_item j ((name, d) ∷ new) ≡ some d = find_item-here j name d new p in
          rw (here, gone, listed) (sym is ∙ ap (λ n. updated server (find_item n items) d) p)
      | no p ↦
          let here : find_item j (put_item name i items) ≡ find_item j items =
            ground (arith, find-put_item j name i items) in
          let listed : find_item j ((name, d) ∷ new) ≡ find_item j new =
            find_item-there j name d new p in
          rw (here, listed) refl
    ]

    put_keeps :
        (j : Name) (v : Item)
        → find_item j items ≡ some v
        → find_item j (put_item name i items) ≢ none
    put_keeps j v h = elim (name_discrete name j) [
      | yes p ↦ λ k. absurd (ground (arith, find-put_item j name i items))
      | no p ↦ λ k. absurd (ground (arith, find-put_item j name i items))
    ]

    then-Merges :
        (s : Synced server)
        → Merges new (put_item name i items) s
        → Merges ((name, d) ∷ new) items s
    then-Merges (synced t) (m, u) = (λ j. m j ∙ merged-put j, u)
    then-Merges (broken t) (l, u) = (
      λ j v h. elim (Option-cases (find_item j (put_item name i items))) [
        | inl e ↦ absurd (put_keeps j v h e)
        | inr (w, e) ↦ l j w e
      ],
      u,
    )

  valid-Merges :
      (name : Name) (d : Bool × D) (new : NewItems server) (items : Items) (o : Option Item)
      → find_item name new ≡ none
      → Unique items
      → updated server (find_item name items) d ≡ o
      → ((i : Item)
          → Merges new (put_item name i items) (sync_new server new (put_item name i items)))
      → Merges ((name, d) ∷ new) items (with_item server name items (λ t. sync_new server new t) o)
  valid-Merges name d new items none fresh u e ih = (λ j i h k. cc, u)
  valid-Merges name d new items (some i) fresh u e ih =
      then-Merges name d new items fresh i e (sync_new server new (put_item name i items)) (ih i)

  sync_new-Merges :
      (new : NewItems server) (items : Items)
      → Unique new
      → Unique items
      → Merges new items (sync_new server new items)
  unfolding sync_new
  sync_new-Merges [] items un u = (λ j. refl, u)
  sync_new-Merges ((name, d) ∷ new) items (fresh, un) u = elim (Bool-cases (is_valid name)) [
    | inr e ↦
        subst (Merges ((name, d) ∷ new) items) (sym (sync_new-invalid name d new items e))
          (λ j i h k. cc, u)
    | inl e ↦ subst (Merges ((name, d) ∷ new) items) (sym (sync_new-valid name d new items e)) (
        valid-Merges name d new items (updated server (find_item name items) d) fresh u refl
          (λ i. sync_new-Merges new (put_item name i items) un (put_item-Unique name i items u)))
  ]

  drop-here :
      (b : Bool) (j n : Name) (i : Item) (rest : Items)
      → n ≡ j
      → find_item j rest ≡ none
      → find_item j (if b then (n, i) ∷ rest else rest) ≡ (if b then some i else none)
  drop-here true j n i rest p e = find_item-here j n i rest p
  drop-here false j n i rest p e = e

  drop-there :
      (b : Bool) (j n : Name) (i : Item) (rest : Items)
      → n ≢ j
      → find_item j (if b then (n, i) ∷ rest else rest) ≡ find_item j rest
  drop-there true j n i rest p = find_item-there j n i rest p
  drop-there false j n i rest p = refl

  -- What the second loop leaves under a name.
  abbrev left : NewItems server → Name → Option Item → Option Item
  left new j none = none
  left new j (some i) = if stays server new j i then some i else none

  find-drop_old :
      (new : NewItems server) (j : Name) (items : Items)
      → Unique items
      → find_item j (drop_old server new items) ≡ left new j (find_item j items)
  unfolding drop_old
  find-drop_old new j [] u = unfold find_item in refl
  find-drop_old new j ((n, i) ∷ items) (fresh, u) =
      let ih = find-drop_old new j items u in
      let rest = drop_old server new items in
      elim (name_discrete n j) [
        | yes p ↦
            drop-here (stays server new n i) j n i rest p
              (ih ∙ ap (left new j) (ap (λ m. find_item m items) (sym p) ∙ fresh))
            ∙ ap (λ m. if stays server new m i then some i else none) p
            ∙ ap (left new j) (sym (find_item-here j n i items p))
        | no p ↦
            drop-there (stays server new n i) j n i rest p
            ∙ ih
            ∙ ap (left new j) (sym (find_item-there j n i items p))
      ]

  if-Unique : (b : Bool) (x y : Items) → Unique x → Unique y → Unique (if b then x else y)
  if-Unique true x y u v = u
  if-Unique false x y u v = v

  drop_old-Unique :
      (new : NewItems server) (items : Items) → Unique items → Unique (drop_old server new items)
  unfolding drop_old
  drop_old-Unique new [] u = tt
  drop_old-Unique new ((n, i) ∷ items) (fresh, u) =
      let ih = drop_old-Unique new items u in
      if-Unique (stays server new n i) ((n, i) ∷ drop_old server new items)
        (drop_old server new items) (find-drop_old new n items u ∙ ap (left new n) fresh, ih) ih

  left-merged :
      (new : NewItems server) (j : Name) (o : Option Item)
      → left new j (merged (find_item j new) o) ≡ kept (find_item j new) o
  left-merged new j o = go (find_item j new) refl o
    where
      go :
          (d : Option (Bool × D))
          → find_item j new ≡ d
          → (o : Option Item) → left new j (merged d o) ≡ kept d o
      go none e none = refl
      go none e (some i) = rw e refl
      go (some d) e o = listed (updated server o d)
        where
          listed : (q : Option Item) → left new j q ≡ q
          listed none = refl
          listed (some i) = rw e refl

  -- The items of a folder after SyncContents: where it returns, those that the list says, and the
  -- files that the server does not have; where it throws, no name has lost its item.
  abbrev pub Follows : NewItems server → Folder → Outcome → Type 0
  Follows new f (done g) =
      ((j : Name) → find_item j g.items ≡ kept (find_item j new) (find_item j f.items))
      × Unique g.items
      × (g ≡ record f { items = g.items })
  Follows new f (thrown e g) =
      (e ≡ json)
      × ((j : Name) (i : Item) → find_item j f.items ≡ some i → find_item j g.items ≢ none)
      × Unique g.items
      × (g ≡ record f { items = g.items })

  pub sync_contents-Follows :
      (new : NewItems server) (f : Folder)
      → Unique new
      → Unique f.items
      → Follows new f (sync_contents server new f)
  unfolding sync_contents
  sync_contents-Follows new f un u =
      go (sync_new server new f.items) (sync_new-Merges new f.items un u)
    where
      go : (s : Synced server) → Merges new f.items s → Follows new f (after_new server new s f)
      go (synced t) (m, v) = (
        λ j.
            find-drop_old new j t v
            ∙ ap (left new j) (m j)
            ∙ left-merged new j (find_item j f.items),
        drop_old-Unique new t v,
        refl,
      )
      go (broken t) (l, v) = (refl, l, v, refl)

  pub emplace_all-Unique :
      (is_file : Bool) (l : List (Name × D)) (new : NewItems server)
      → Unique new
      → Unique (emplace_all server is_file l new)
  unfolding emplace_all
  emplace_all-Unique is_file [] new u = u
  emplace_all-Unique is_file ((name, d) ∷ l) new u =
      emplace_all-Unique is_file l (emplace_item name (is_file, d) new)
        (emplace_item-Unique name (is_file, d) new u)
