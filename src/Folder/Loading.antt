-- ===== src/Folder/Loading.antt =====
-- LoadItems of Folder.cpp with SubLoadItems of PlainFolder.cpp: what a folder knows after it.
use andromeda_desktop_client.Common.{
  ◌≡◌, ◌≢◌, ◌⊎◌, refl, ap, Bool, true, false, not, ◌||◌, if◌then◌else◌, List, [], ◌∷◌, ◌++◌, Option,
  none, some, inl, inr, arith,
}
use andromeda_desktop_client.Folder.Names.{Name, find_item, Unique}
use andromeda_desktop_client.Folder.{
  Item, get_folder, backend, Server, Folder, Outcome, done, thrown, and_then, NewItems,
  sync_contents, emplace_all, load_items_from, sub_load_items, load_items,
}
use andromeda_desktop_client.Folder.Syncing.{
  kept, Follows, sync_contents-Follows, emplace_all-Unique,
}

module _ {D : Type 0} (server : Server D) where
  open server use {refuses, listing}

  pub load_keeps : (f : Folder) → f.have_items ≡ true → load_items server false f ≡ done f
  unfolding load_items
  load_keeps f have = rw have refl

  abbrev listed_items : List (Name × D) × List (Name × D) → NewItems server
  listed_items (files, folders) =
      emplace_all server false folders (emplace_all server true files [])

  -- A folder with the items of the list, and the files that the server does not have.
  abbrev pub Refreshed : Folder → Folder → Type 0
  Refreshed f g =
      (refuses (get_folder f.id) ≡ false)
      × (l : List (Name × D) × List (Name × D)) × (listing f.id ≡ some l)
      × ((j : Name)
          → find_item j g.items ≡ kept server (find_item j (listed_items l)) (find_item j f.items))
      × (g ≡ record f {
        items = g.items;
        have_items = true;
        requests = f.requests ++ get_folder f.id ∷ [];
      })

  abbrev pub Loads : Bool → Folder → Outcome → Type 0
  Loads expired f (done g) =
      (((f.have_items ≡ true) × (expired ≡ false) × (g ≡ f))
        ⊎ (((not f.have_items || expired) ≡ true) × Refreshed f g))
      × Unique g.items
  Loads expired f (thrown e g) =
      ((j : Name) (i : Item) → find_item j f.items ≡ some i → find_item j g.items ≢ none)
      × ((not f.have_items || expired) ≡ true)
      × (((refuses (get_folder f.id) ≡ true) × (g ≡ f))
          ⊎ ((refuses (get_folder f.id) ≡ false)
              × (g ≡ record f { items = g.items; requests = f.requests ++ get_folder f.id ∷ [] })))
      × Unique g.items

  -- LoadItemsFrom, in a folder whose request was accepted.
  abbrev asked : Folder → Folder
  asked f = record f { requests = f.requests ++ get_folder f.id ∷ [] }

  abbrev finish : Folder → Outcome
  finish g = done (record g { have_items = true })

  listed-Loads :
      (expired : Bool) (f : Folder) (l : Option (List (Name × D) × List (Name × D)))
      → Unique f.items
      → listing f.id ≡ l
      → (not f.have_items || expired) ≡ true
      → refuses (get_folder f.id) ≡ false
      → Loads expired f (and_then (load_items_from server l (asked f)) finish)
  unfolding load_items_from
  listed-Loads expired f none u e due taken = (λ j i h k. cc, due, inr (taken, refl), u)
  listed-Loads expired f (some (files, folders)) u e due taken =
      go (sync_contents server new (asked f)) (
        sync_contents-Follows server new (asked f)
          (emplace_all-Unique server false folders (emplace_all server true files [])
            (emplace_all-Unique server true files [] tt))
          u)
    where
      new : NewItems server
      new = emplace_all server false folders (emplace_all server true files [])

      go : (o : Outcome) → Follows server new (asked f) o → Loads expired f (and_then o finish)
      go (done g) (m, v, same) = (
        inr (
          due,
          (taken, (files, folders), e, m, ap (λ (h : Folder). record h { have_items = true }) same),
        ),
        v,
      )
      go (thrown x g) (_, l, v, same) = (l, due, inr (taken, same), v)

  if-Loads :
      (expired : Bool) (f : Folder) (b : Bool) (x y : Outcome)
      → (b ≡ true → Loads expired f x)
      → (b ≡ false → Loads expired f y)
      → Loads expired f (if b then x else y)
  if-Loads expired f true x y h k = h refl
  if-Loads expired f false x y h k = k refl

  -- LoadItems asks the server for the folder exactly where it has no items yet or they have
  -- expired. Where it returns without having asked, the folder is as it was; where it returns after
  -- it, each name has the listed item, made new or refreshed, or else the file that it had and that
  -- the server does not have yet. Where it throws, it has asked, and either the server refused and
  -- the folder is as it was, or no name has lost its item and nothing but the items has changed. No
  -- name stands twice, given that none did.
  pub load_items-Loads :
      (expired : Bool) (f : Folder) → Unique f.items → Loads expired f (load_items server expired f)
  unfolding load_items sub_load_items
  load_items-Loads expired f u =
      if-Loads expired f (not f.have_items || expired) _ _
        (λ e.
          and_then-if (refuses (get_folder f.id)) (thrown backend f)
            (load_items_from server (listing f.id) (asked f))
            (λ t. (λ j i h k. cc, e, inl (t, refl), u))
            (λ t. listed-Loads expired f (listing f.id) u refl e t))
        (λ e. (inl (ground arith, ground arith, refl), u))
    where
      and_then-if :
          (b : Bool) (x y : Outcome)
          → (b ≡ true → Loads expired f (and_then x finish))
          → (b ≡ false → Loads expired f (and_then y finish))
          → Loads expired f (and_then (if b then x else y) finish)
      and_then-if true x y h k = h refl
      and_then-if false x y h k = k refl
