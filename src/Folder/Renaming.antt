-- ===== src/Folder/Renaming.antt =====
-- RenameItem and DeleteItem of Folder.cpp, with SubRename and SubDelete of File.cpp and
-- PlainFolder.cpp.
use mathlib.Core.List.{append-nil}
use andromeda_desktop_client.Common.{
  ◌≡◌, ◌≢◌, ◌⊎◌, refl, ◌∙◌, ap, Bool, true, false, not, ◌&&◌, ◌||◌, if◌then◌else◌, ite, subst, List,
  [], ◌∷◌, ◌++◌, Option, none, some, inl, inr, arith,
}
use andromeda_desktop_client.Backend.HttpRunner.{is_empty_text}
use andromeda_desktop_client.Folder.Names.{
  if_lem, Name, name_discrete, find_item, erase_item, put_item, find-erase_item, find-put_item,
  Unique, erase_item-Unique, put_item-Unique,
}
use andromeda_desktop_client.Folder.{
  Item, Items, Request, rename_file, rename_folder, delete_file, delete_folder, Error,
  duplicate_item, read_only_fs, backend, Server, Folder, Outcome, done, thrown, and_then, send,
  load_items, has_item, renamed, rename_found, rename_item, delete_found, delete_item,
}
use andromeda_desktop_client.Folder.Loading.{Loads, load_items-Loads}

pub find_both :
    (j old new : Name) (i : Item) (items : Items)
    → find_item j (put_item new i (erase_item old (erase_item new items)))
      ≡ ite (name_discrete new j) (some i) (ite (name_discrete old j) none (find_item j items))
find_both j old new i items = ground (
  arith,
  find-put_item j new i (erase_item old (erase_item new items)),
  find-erase_item j old (erase_item new items),
  find-erase_item j new items,
)

module _ {D : Type 0} (server : Server D) where
  open server use {refuses}

  -- An item may not be changed, or the server refuses the request for it.
  abbrev pub denied : Item → Request → Request → Bool
  denied i file folder =
      i.read_only || (if i.is_file then i.on_backend && refuses file else refuses folder)

  -- What each branch of a handler leaves, given what it leaves behind a request that the server
  -- takes.
  module _ (P : Outcome → Type 0) where
    ite_lem : {A : Type 0} (d : Dec A) (x y : Outcome) → (A → P x) → (¬ A → P y) → P (ite d x y)
    ite_lem (yes p) x y h k = h p
    ite_lem (no p) x y h k = k p

    send_lem :
        (r : Request) (g : Folder) (next : Folder → Outcome)
        → (refuses r ≡ true → P (thrown backend g))
        → (refuses r ≡ false → P (next (record g { requests = g.requests ++ r ∷ [] })))
        → P (send server r g next)
    send_lem r g next throws goes = if_lem P (refuses r) _ _ throws goes

    -- Of a file that the server does not have, nothing is asked.
    item_lem :
        (i : Item) (file folder : Request) (g : Folder) (next : Folder → Outcome)
        → ((e : Error) → denied i file folder ≡ true → P (thrown e g))
        → (denied i file folder ≡ false
            → P (
                next (record g {
                  requests =
                      g.requests
                      ++ (if i.is_file
                          then if i.on_backend then file ∷ [] else []
                          else folder ∷ []);
                })))
        → P (
            if i.read_only
            then thrown read_only_fs g
            else if i.is_file
            then if i.on_backend then send server file g next else next g
            else send server folder g next)
    item_lem i file folder g next throws goes =
        if_lem P i.read_only _ _ (λ e. throws read_only_fs (ground (arith, e)))
          (λ e. go i.is_file i.on_backend refl refl e)
      where
        go :
            (b c : Bool)
            → i.is_file ≡ b
            → i.on_backend ≡ c
            → i.read_only ≡ false
            → P (
                if b
                then if c then send server file g next else next g
                else send server folder g next)
        go false c p q w =
            send_lem folder g next (λ r. throws backend (ground (arith, p, w, r)))
              (λ r.
                subst (λ rs. P (next (record g { requests = g.requests ++ rs }))) (rw p refl)
                  (goes (ground (arith, p, w, r))))
        go true true p q w =
            send_lem file g next (λ r. throws backend (ground (arith, p, q, w, r)))
              (λ r.
                subst (λ rs. P (next (record g { requests = g.requests ++ rs }))) (rw (p, q) refl)
                  (goes (ground (arith, p, q, w, r))))
        go true false p q w =
            subst (λ rs. P (next (record g { requests = rs })))
              (ap (λ rs. g.requests ++ rs) (rw (p, q) refl) ∙ append-nil g.requests)
              (goes (ground (arith, p, q, w)))

  abbrev pub rename_requests : Name → Bool → Item → List Request
  rename_requests new overwrite i =
      if i.is_file
      then if i.on_backend then rename_file i.id new overwrite ∷ [] else []
      else rename_folder i.id new overwrite ∷ []

  abbrev pub rename_denied : Name → Bool → Item → Folder → Bool
  rename_denied new overwrite i g =
      (not overwrite && has_item (find_item new g.items))
      || is_empty_text new
      || denied i (rename_file i.id new overwrite) (rename_folder i.id new overwrite)

  -- From the loaded folder g.
  abbrev pub RenamesFrom : Name → Name → Bool → Folder → Outcome → Type 0
  RenamesFrom old new overwrite g (done h) =
      ((old ≡ new) × (h ≡ g))
      ⊎ ((i : Item) × (find_item old g.items ≡ some i)
          × (rename_denied new overwrite i g ≡ false)
          × ((j : Name)
              → find_item j h.items
                ≡ ite (name_discrete new j) (some i)
                    (ite (name_discrete old j) none (find_item j g.items)))
          × Unique h.items
          × (h ≡ record g {
            items = h.items;
            requests = g.requests ++ rename_requests new overwrite i;
          }))
  RenamesFrom old new overwrite g (thrown e h) =
      (h ≡ g)
      × ((i : Item)
          → find_item old g.items ≡ some i
          → (old ≢ new) × (rename_denied new overwrite i g ≡ true))

  rename_found-RenamesFrom :
      (old new : Name) (overwrite : Bool) (g : Folder) (o : Option Item)
      → find_item old g.items ≡ o
      → Unique g.items
      → RenamesFrom old new overwrite g (rename_found server old new overwrite o g)
  rename_found-RenamesFrom old new overwrite g none e u = (refl, λ i f. absurd (cc))
  rename_found-RenamesFrom old new overwrite g (some i) e u =
      ite_lem P (name_discrete old new) _ _ (λ p. inl (p, refl))
        (λ p.
          if_lem P ((not overwrite && has_item (find_item new g.items)) || is_empty_text new) _ _
            (λ q. refused duplicate_item p (first taken empty not_allowed q))
            (λ q.
              item_lem P i (rename_file i.id new overwrite) (rename_folder i.id new overwrite) g
                (λ h. renamed old new i h) (λ x d. refused x p (second taken empty not_allowed d))
                (λ d. inr (
                  i,
                  e,
                  none_of taken empty not_allowed q d,
                  λ j. find_both j old new i g.items,
                  put_item-Unique new i (erase_item old (erase_item new g.items)) (
                      erase_item-Unique old (erase_item new g.items)
                        (erase_item-Unique new g.items u)),
                  refl,
                ))))
    where
      P : Outcome → Type 0
      P = RenamesFrom old new overwrite g

      taken : Bool
      taken = not overwrite && has_item (find_item new g.items)

      empty : Bool
      empty = is_empty_text new

      not_allowed : Bool
      not_allowed = denied i (rename_file i.id new overwrite) (rename_folder i.id new overwrite)

      refused : (x : Error) → old ≢ new → rename_denied new overwrite i g ≡ true → P (thrown x g)
      refused x differ d =
          (refl, λ j f. (differ, subst (λ k. rename_denied new overwrite k g ≡ true) (same j f) d))
        where
          same : (j : Item) → find_item old g.items ≡ some j → i ≡ j
          same j f = cc

      first : (a b c : Bool) → (a || b) ≡ true → (a || b || c) ≡ true
      first a b c q = ground arith

      second : (a b c : Bool) → c ≡ true → (a || b || c) ≡ true
      second a b c q = ground arith

      none_of : (a b c : Bool) → (a || b) ≡ false → c ≡ false → (a || b || c) ≡ false
      none_of a b c q d = ground arith

  abbrev pub delete_requests : Item → List Request
  delete_requests i =
      if i.is_file
      then if i.on_backend then delete_file i.id ∷ [] else []
      else delete_folder i.id ∷ []

  abbrev pub DeletesFrom : Name → Folder → Outcome → Type 0
  DeletesFrom name g (done h) =
      (i : Item) × (find_item name g.items ≡ some i)
      × (denied i (delete_file i.id) (delete_folder i.id) ≡ false)
      × ((j : Name) → find_item j h.items ≡ ite (name_discrete name j) none (find_item j g.items))
      × Unique h.items
      × (h ≡ record g { items = h.items; requests = g.requests ++ delete_requests i })
  DeletesFrom name g (thrown e h) =
      (h ≡ g)
      × ((i : Item)
          → find_item name g.items ≡ some i
          → denied i (delete_file i.id) (delete_folder i.id) ≡ true)

  delete_found-DeletesFrom :
      (name : Name) (g : Folder) (o : Option Item)
      → find_item name g.items ≡ o
      → Unique g.items
      → DeletesFrom name g (delete_found server name o g)
  delete_found-DeletesFrom name g none e u = (refl, λ i f. absurd (cc))
  delete_found-DeletesFrom name g (some i) e u =
      item_lem (DeletesFrom name g) i (delete_file i.id) (delete_folder i.id) g
        (λ h. done (record h { items = erase_item name h.items }))
        (λ x d. (
          refl,
          λ j f. subst (λ k. denied k (delete_file k.id) (delete_folder k.id) ≡ true) (same j f) d,
        ))
        (λ d.
          (i, e, d, λ j. find-erase_item j name g.items, erase_item-Unique name g.items u, refl))
    where
      same : (j : Item) → find_item name g.items ≡ some j → i ≡ j
      same j f = cc

  -- A handler that refuses in a read-only folder and otherwise goes on from the loaded one.
  abbrev pub FromLoaded : (Folder → Outcome → Type 0) → Bool → Folder → Outcome → Type 0
  FromLoaded From expired f o =
      ((f.read_only ≡ true) × (o ≡ thrown read_only_fs f))
      ⊎ ((f.read_only ≡ false)
          × (((e : Error) × (g : Folder) × (load_items server expired f ≡ thrown e g)
                × (o ≡ thrown e g))
              ⊎ ((g : Folder) × (load_items server expired f ≡ done g) × From g o)))

  handler_lem :
      (From : Folder → Outcome → Type 0) (expired : Bool) (f : Folder) (handle : Folder → Outcome)
      → Unique f.items
      → ((g : Folder) → Unique g.items → From g (handle g))
      → FromLoaded From expired f (
          if f.read_only
          then thrown read_only_fs f
          else and_then (load_items server expired f) handle)
  handler_lem From expired f handle u h =
      if_lem (FromLoaded From expired f) f.read_only _ _ (λ e. inl (e, refl))
        (λ e. inr (e, go (load_items server expired f) refl (load_items-Loads server expired f u)))
    where
      go :
          (o : Outcome)
          → load_items server expired f ≡ o
          → Loads server expired f o
          → ((e : Error) × (g : Folder) × (load_items server expired f ≡ thrown e g)
              × (and_then o handle ≡ thrown e g))
            ⊎ ((g : Folder) × (load_items server expired f ≡ done g) × From g (and_then o handle))
      go (thrown e g) q l = inl (e, g, q, refl)
      go (done g) q l = inr (g, q, h g l.1)

  -- RenameItem, in a folder where no name stands twice: it throws without a change in a read-only
  -- folder. In another one it throws as LoadItems threw; or it leaves the folder as LoadItems left
  -- it, by an exception, if there is no item of the old name, or the new name is empty or is taken
  -- and not to be overwritten, or the item is read-only or the server refuses; or both names are
  -- the same and nothing is done. Otherwise the item of the old name stands under the new one, none
  -- under the old one, and all other names are as they were; the server has then been asked to
  -- rename the item exactly where it has it.
  pub rename_item-Renames :
      (expired : Bool) (old new : Name) (overwrite : Bool) (f : Folder)
      → Unique f.items
      → FromLoaded
          (RenamesFrom old new overwrite)
          expired
          f
          (rename_item server expired old new overwrite f)
  unfolding rename_item
  rename_item-Renames expired old new overwrite f u =
      handler_lem (RenamesFrom old new overwrite) expired f
        (λ g. rename_found server old new overwrite (find_item old g.items) g) u
        (λ g v. rename_found-RenamesFrom old new overwrite g (find_item old g.items) refl v)

  -- DeleteItem, in a folder where no name stands twice: it throws without a change in a read-only
  -- folder. In another one it throws as LoadItems threw; or it throws with the folder as LoadItems
  -- left it, if there is no such item, or it is read-only or the server refuses; otherwise the item
  -- is gone, all other names are as they were, and the server has been asked to delete it exactly
  -- where it has it.
  pub delete_item-Deletes :
      (expired : Bool) (name : Name) (f : Folder)
      → Unique f.items
      → FromLoaded (DeletesFrom name) expired f (delete_item server expired name f)
  unfolding delete_item
  delete_item-Deletes expired name f u =
      handler_lem (DeletesFrom name) expired f
        (λ g. delete_found server name (find_item name g.items) g) u
        (λ g v. delete_found-DeletesFrom name g (find_item name g.items) refl v)
