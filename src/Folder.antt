-- ===== src/Folder.antt =====
-- Folder.cpp of src/lib/andromeda/filesystem, with what PlainFolder.cpp and File.cpp do for it: the
-- items of a folder, loaded from the server, created, deleted, renamed and moved. The server, and
-- the items that are made from its answers, are parameters. The locks of items are left out: the
-- caller has the folder to itself.
pub mod Names
pub mod Syncing
pub mod Loading
pub mod Renaming
pub mod Locking
pub mod Moves
pub mod Moving
mod Tests
use andromeda_desktop_client.Common.{
  ℕ, Bool, true, false, not, ◌&&◌, ◌||◌, if◌then◌else◌, ite, List, [], ◌∷◌, ◌++◌, Option, none,
  some, ◌==◌,
}
use andromeda_desktop_client.Backend.HttpRunner.{is_empty_text}
use andromeda_desktop_client.Folder.Names.{
  Name, is_valid, find_item, name_discrete, erase_item, put_item, emplace_item,
}

-- A File or a PlainFolder. `details` is what else Refresh changes: sizes and dates.
pub record Item : Type 0 where
  pub id : Name
  pub is_file : Bool
  pub on_backend : Bool
  pub read_only : Bool
  pub details : ℕ

abbrev pub Items : Type 0
Items = List (Name × Item)

pub data Request : Type 0 where
  get_folder : Name → Request
  create_file create_folder : Name → Name → Request
  delete_file delete_folder : Name → Request
  rename_file rename_folder : Name → Name → Bool → Request
  move_file move_folder : Name → Name → Bool → Request

pub data Error : Type 0 where
  invalid_name duplicate_item not_found read_only_fs modify json backend : Error

-- `requests` are those that the server has accepted.
pub record Folder : Type 0 where
  pub id : Name
  pub read_only : Bool
  pub have_items : Bool
  pub items : Items
  pub requests : List Request

pub data Outcome : Type 0 where
  done : Folder → Outcome
  thrown : Error → Folder → Outcome

abbrev pub and_then : Outcome → (Folder → Outcome) → Outcome
and_then (done f) k = k f
and_then (thrown e f) k = thrown e f

abbrev pub put_made : Name → Option Item → Folder → Outcome
put_made name none f = thrown json f
put_made name (some i) f = done (record f { items = put_item name i f.items })

abbrev pub unsent_file : Item
unsent_file = record { id = []; is_file = true; on_backend = false; read_only = false; details = 0 }

abbrev pub has_item : Option Item → Bool
has_item none = false
has_item (some i) = true

-- The item is taken out and put in under the new name, in the place of what stood there.
abbrev pub renamed : Name → Name → Item → Folder → Outcome
renamed old new i f =
    done (record f { items = put_item new i (erase_item old (erase_item new f.items)) })

-- The server: which requests it refuses, the files and the folders of a listing, and the answer to
-- a request that creates an item. D is a JSON object; the constructors of File and PlainFolder and
-- Refresh read it, and throw where it lacks a key. FlushCache of a File
-- gives the file after it, which it may have sent to the server, and whether it threw then.
pub record Server (D : Type 0) : Type 0 where
  pub refuses : Request → Bool
  pub listing : Name → Option (List (Name × D) × List (Name × D))
  pub created : Request → Name × D
  pub make : Bool → D → Option Item
  pub refresh : Item → D → Option Item
  pub flush_cache : Item → Item × Bool

module _ {D : Type 0} (server : Server D) where
  open server use {refuses, listing, created, make, refresh, flush_cache}

  abbrev pub send : Request → Folder → (Folder → Outcome) → Outcome
  send r f next =
      if refuses r then thrown backend f else next (record f { requests = f.requests ++ r ∷ [] })

  -- SyncContents. A new item has its JSON and which constructor makes it.
  abbrev pub NewItems : Type 0
  NewItems = List (Name × (Bool × D))

  abbrev pub updated : Option Item → Bool × D → Option Item
  updated none (is_file, d) = make is_file d
  updated (some i) (is_file, d) = refresh i d

  pub data Synced : Type 0 where
    synced : Items → Synced
    broken : Items → Synced

  abbrev pub with_item : Name → Items → (Items → Synced) → Option Item → Synced
  with_item name items next none = broken items
  with_item name items next (some i) = next (put_item name i items)

  unfoldable pub sync_new : NewItems → Items → Synced
  unfolding is_valid find_item put_item
  sync_new [] items = synced items
  sync_new ((name, d) ∷ new) items = elim (is_valid name) [
    | false ↦ broken items
    | true ↦ with_item name items (λ t. sync_new new t) (updated (find_item name items) d)
  ]

  abbrev pub is_listed : Option (Bool × D) → Bool
  is_listed none = false
  is_listed (some d) = true

  abbrev pub stays : NewItems → Name → Item → Bool
  stays new name i = is_listed (find_item name new) || (i.is_file && not i.on_backend)

  unfoldable pub drop_old : NewItems → Items → Items
  unfolding find_item
  drop_old new [] = []
  drop_old new ((name, i) ∷ items) =
      let rest = drop_old new items in if stays new name i then (name, i) ∷ rest else rest

  abbrev pub after_new : NewItems → Synced → Folder → Outcome
  after_new new (broken items) f = thrown json (record f { items = items })
  after_new new (synced items) f = done (record f { items = drop_old new items })

  unfoldable pub sync_contents : NewItems → Folder → Outcome
  unfolding sync_new drop_old
  sync_contents new f = after_new new (sync_new new f.items) f

  -- LoadItemsFrom: a name that comes twice counts the first time.
  unfoldable pub emplace_all : Bool → List (Name × D) → NewItems → NewItems
  unfolding emplace_item
  emplace_all is_file [] new = new
  emplace_all is_file ((name, d) ∷ l) new =
      emplace_all is_file l (emplace_item name (is_file, d) new)

  unfoldable pub load_items_from : Option (List (Name × D) × List (Name × D)) → Folder → Outcome
  unfolding sync_contents emplace_all
  load_items_from none f = thrown json f
  load_items_from (some (files, folders)) f =
      sync_contents (emplace_all false folders (emplace_all true files [])) f

  unfoldable pub sub_load_items : Folder → Outcome
  unfolding load_items_from
  sub_load_items f = send (get_folder f.id) f (λ g. load_items_from (listing f.id) g)

  -- LoadItems, with whether the items have expired and may be refreshed.
  unfoldable pub load_items : Bool → Folder → Outcome
  unfolding sub_load_items
  load_items expired f =
      if not f.have_items || expired
      then and_then (sub_load_items f) (λ g. done (record g { have_items = true }))
      else done f

  unfoldable pub sub_create_file : Bool → Name → Folder → Outcome
  unfolding put_item
  sub_create_file cached name f =
      if f.read_only
      then thrown read_only_fs f
      else if cached
      then done (record f { items = put_item name unsent_file f.items })
      else send (create_file f.id name) f (λ g.
        let answer = created (create_file f.id name) in put_made answer.0 (make true answer.1) g)

  unfoldable pub sub_create_folder : Name → Folder → Outcome
  unfolding put_item
  sub_create_folder name f =
      if f.read_only
      then thrown read_only_fs f
      else send (create_folder f.id name) f (λ g.
        let answer = created (create_folder f.id name) in put_made answer.0 (make false answer.1) g)

  unfoldable pub create_item : (Folder → Outcome) → Bool → Name → Folder → Outcome
  unfolding is_valid load_items find_item
  create_item sub expired name f =
      if not (is_valid name)
      then thrown invalid_name f
      else and_then (load_items expired f) (λ g.
        if has_item (find_item name g.items) || is_empty_text name
        then thrown duplicate_item g
        else sub g)

  abbrev pub sub_delete : Item → Folder → (Folder → Outcome) → Outcome
  sub_delete i f next =
      if i.read_only
      then thrown read_only_fs f
      else if i.is_file
      then if i.on_backend then send (delete_file i.id) f next else next f
      else send (delete_folder i.id) f next

  abbrev pub sub_rename : Name → Bool → Item → Folder → (Folder → Outcome) → Outcome
  sub_rename name overwrite i f next =
      if i.read_only
      then thrown read_only_fs f
      else if i.is_file
      then if i.on_backend then send (rename_file i.id name overwrite) f next else next f
      else send (rename_folder i.id name overwrite) f next

  abbrev pub delete_found : Name → Option Item → Folder → Outcome
  delete_found name none f = thrown not_found f
  delete_found name (some i) f =
      sub_delete i f (λ g. done (record g { items = erase_item name g.items }))

  unfoldable pub delete_item : Bool → Name → Folder → Outcome
  unfolding load_items find_item erase_item
  delete_item expired name f =
      if f.read_only
      then thrown read_only_fs f
      else and_then (load_items expired f) (λ g. delete_found name (find_item name g.items) g)

  abbrev pub rename_found : Name → Name → Bool → Option Item → Folder → Outcome
  rename_found old new overwrite none f = thrown not_found f
  rename_found old new overwrite (some i) f = ite (name_discrete old new) (done f) (
      if (not overwrite && has_item (find_item new f.items)) || is_empty_text new
      then thrown duplicate_item f
      else sub_rename new overwrite i f (λ g. renamed old new i g))

  unfoldable pub rename_item : Bool → Name → Name → Bool → Folder → Outcome
  unfolding load_items find_item erase_item put_item
  rename_item expired old new overwrite f =
      if f.read_only
      then thrown read_only_fs f
      else and_then (load_items expired f)
          (λ g. rename_found old new overwrite (find_item old g.items) g)
