-- ===== src/Folder/Tests.antt =====
-- Tests of the model of Folder.cpp, and its theorems at a concrete folder.
use andromeda_desktop_client.Common.{
  ℕ, ◌≡◌, refl, arith, Bool, true, false, [], ◌∷◌, some, ltb, if◌then◌else◌, ℕ_discrete,
}
use andromeda_desktop_client.Folder.Names.{
  Name, find_item, is_valid, name_discrete, erase_item, Unique,
}
use andromeda_desktop_client.StringUtil.{find, is_text}
use andromeda_desktop_client.Folder.{
  Item, get_folder, Server, Folder, done, thrown, duplicate_item, load_items, create_item,
  sub_create_file, rename_item, delete_item, unsent_file,
}
use andromeda_desktop_client.Folder.Loading.{Loads, load_items-Loads}
use andromeda_desktop_client.Folder.Renaming.{
  FromLoaded, RenamesFrom, rename_item-Renames, DeletesFrom, delete_item-Deletes,
}
use andromeda_desktop_client.Folder.Locking.{Wait, lock_items, names_of, lock_items-ends}
use andromeda_desktop_client.Folder.Moves.{move_item}
use andromeda_desktop_client.Folder.Moving.{Moves, move_item-Moves}

abbrev name_a : Name
name_a = b'a' ∷ []

abbrev name_b : Name
name_b = b'b' ∷ []

abbrev name_c : Name
name_c = b'c' ∷ []

abbrev item : Bool → ℕ → Item
item is_file d = record {
  id = d ∷ [];
  is_file = is_file;
  on_backend = true;
  read_only = false;
  details = d;
}

-- A server that accepts all requests and lists the file "a" and the folder "b".
abbrev server : Server ℕ
server = record {
  refuses = λ r. false;
  listing = λ id. some ((name_a, 1) ∷ [], (name_b, 2) ∷ []);
  created = λ r. (name_c, 3);
  make = λ is_file d. some (item is_file d);
  refresh = λ i d. some (record i { details = d });
  flush_cache = λ i. (record i { id = 9 ∷ []; on_backend = true }, false);
}

-- The folder has a file "c" that the server does not have, and a file "a" that has changed there.
abbrev folder : Folder
folder = record {
  id = 0 ∷ [];
  read_only = false;
  have_items = true;
  items = (name_c, unsent_file) ∷ (name_a, item true 7) ∷ (name_b, item false 2) ∷ [];
  requests = [];
}

abbrev other : Folder
other = record folder { id = 5 ∷ []; items = (name_a, item true 8) ∷ [] }

folder-Unique : Unique folder.items
unfolding find_item name_discrete ℕ_discrete
folder-Unique = (refl, (refl, (refl, tt)))

other-Unique : Unique other.items
unfolding find_item name_discrete ℕ_discrete
other-Unique = (refl, tt)

bad_name : is_valid (b'a' ∷ b'/' ∷ []) ≡ false
unfolding is_valid find ℕ_discrete
bad_name = refl

-- After a reload, "a" is refreshed and "c" is kept.
reloaded :
    load_items server true folder
    ≡ done (record folder {
      items =
          (name_a, record (item true 7) { details = 1 })
          ∷ (name_b, item false 2)
          ∷ (name_c, unsent_file)
          ∷ [];
      requests = get_folder (0 ∷ []) ∷ [];
    })
unfolding load_items find find_item name_discrete erase_item ℕ_discrete
reloaded = refl

-- "a" is taken.
taken :
    create_item server (sub_create_file server true name_a) false name_a folder
    ≡ thrown duplicate_item folder
unfolding create_item find find_item name_discrete ℕ_discrete
taken = refl

load_items-Loads_example : Loads server true folder (load_items server true folder)
load_items-Loads_example = load_items-Loads server true folder folder-Unique

rename_item-Renames_example :
    FromLoaded server
      (RenamesFrom server name_a name_b true)
      false
      folder
      (rename_item server false name_a name_b true folder)
rename_item-Renames_example =
    rename_item-Renames server false name_a name_b true folder folder-Unique

delete_item-Deletes_example :
    FromLoaded server
      (DeletesFrom server name_a)
      false
      folder
      (delete_item server false name_a folder)
delete_item-Deletes_example = delete_item-Deletes server false name_a folder folder-Unique

-- "a" and "b" are locked by others at first; one wait frees the item that is waited for.
abbrev others : Name → Bool
others [] = false
others (x ∷ name) = ltb x 99

abbrev after_wait : Wait
after_wait name busy n = if is_text name n then false else busy n

is_text_self : (n : Name) → is_text n n ≡ true
is_text_self [] = refl
is_text_self (x ∷ n) = ground (arith, is_text_self n)

after_wait-fewer :
    (name : Name) (busy : Name → Bool) (n : Name) → after_wait name busy n ≡ true → busy n ≡ true
after_wait-fewer name busy n h = ground (arith, h)

after_wait-unlocked : (name : Name) (busy : Name → Bool) → after_wait name busy name ≡ false
after_wait-unlocked name busy = rw (is_text_self name) refl

lock_items-ends_example : lock_items after_wait folder.items 3 others ≡ some (names_of folder.items)
lock_items-ends_example =
    lock_items-ends after_wait folder.items after_wait-fewer after_wait-unlocked 3 others
      (omega arith)

move_item-Moves_example :
    Moves server name_a true folder other (move_item server name_a true folder other)
move_item-Moves_example =
    move_item-Moves server name_a true folder other refl refl folder-Unique other-Unique
