-- ===== src/Folder/Moves.antt =====
-- MoveItem of Folder.cpp, with SubMove of File.cpp and PlainFolder.cpp: from one folder into
-- another one.
use andromeda_desktop_client.Common.{
  Bool, false, not, ◌&&◌, if◌then◌else◌, [], ◌∷◌, ◌++◌, Option, none, some,
}
use andromeda_desktop_client.Backend.HttpRunner.{is_empty_text}
use andromeda_desktop_client.Folder.Names.{Name, find_item, erase_item, put_item}
use andromeda_desktop_client.Folder.{
  Item, Request, move_file, move_folder, Error, duplicate_item, not_found, read_only_fs, modify,
  backend, Server, Folder, Outcome, done, thrown, has_item, load_items,
}

-- The folder and the new parent.
pub data Moved : Type 0 where
  moved : Folder → Folder → Moved
  failed : Error → Folder → Folder → Moved

abbrev pub transfer : Name → Folder → Item → Folder → Moved
transfer name parent i f =
    moved (record f { items = erase_item name f.items })
      (record parent { items = put_item name i (erase_item name parent.items) })

abbrev pub load_parent : Folder → Outcome → (Folder → Moved) → Moved
load_parent f (thrown e parent) next = failed e f parent
load_parent f (done parent) next = next parent

module _ {D : Type 0} (server : Server D) where
  open server use {refuses, flush_cache}

  abbrev pub send_move : Request → Folder → Folder → (Folder → Moved) → Moved
  send_move r f parent next =
      if refuses r
      then failed backend f parent
      else next (record f { requests = f.requests ++ r ∷ [] })

  -- A file that the server does not have is sent there first, which changes the item itself, also
  -- where it throws.
  abbrev pub flushed_move :
      Name → Bool → Item × Bool → Folder → Folder → (Item → Folder → Moved) → Moved
  flushed_move name overwrite (i, threw) f parent next =
      if threw
      then failed backend (record f { items = put_item name i f.items }) parent
      else send_move (move_file i.id parent.id overwrite)
          (record f { items = put_item name i f.items }) parent (next i)

  unfoldable pub sub_move : Name → Bool → Item → Folder → Folder → (Item → Folder → Moved) → Moved
  unfolding put_item
  sub_move name overwrite i f parent next =
      if i.read_only
      then failed read_only_fs f parent
      else if not i.is_file
      then send_move (move_folder i.id parent.id overwrite) f parent (next i)
      else if i.on_backend
      then send_move (move_file i.id parent.id overwrite) f parent (next i)
      else flushed_move name overwrite (flush_cache i) f parent next

  abbrev pub move_into : Name → Bool → Item → Folder → Folder → Moved
  move_into name overwrite i f parent =
      if parent.read_only
      then failed read_only_fs f parent
      else if is_empty_text parent.id
      then failed modify f parent
      else if not overwrite && has_item (find_item name parent.items)
      then failed duplicate_item f parent
      else sub_move name overwrite i f parent (λ j g. transfer name parent j g)

  abbrev pub move_found : Name → Bool → Option Item → Folder → Folder → Moved
  move_found name overwrite none f parent = failed not_found f parent
  move_found name overwrite (some i) f parent =
      load_parent f (load_items server false parent) (λ p. move_into name overwrite i f p)

  abbrev pub move_loaded : Name → Bool → Outcome → Folder → Moved
  move_loaded name overwrite (thrown e f) parent = failed e f parent
  move_loaded name overwrite (done f) parent =
      move_found name overwrite (find_item name f.items) f parent

  -- LoadItems may not refresh here.
  unfoldable pub move_item : Name → Bool → Folder → Folder → Moved
  unfolding sub_move load_items find_item erase_item put_item
  move_item name overwrite f parent =
      if f.read_only
      then failed read_only_fs f parent
      else move_loaded name overwrite (load_items server false f) parent
