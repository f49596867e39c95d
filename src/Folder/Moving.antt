-- ===== src/Folder/Moving.antt =====
-- MoveItem of Folder.cpp loses no item and doubles none.
use andromeda_desktop_client.Common.{
  ◌≡◌, ◌⊎◌, refl, sym, ◌∙◌, ap, Bool, true, false, not, ◌&&◌, ◌||◌, if◌then◌else◌, ite, subst, [],
  ◌∷◌, ◌++◌, Option, none, some, inl, inr, arith,
}
use andromeda_desktop_client.Backend.HttpRunner.{is_empty_text}
use andromeda_desktop_client.Folder.Names.{
  if_lem, Name, name_discrete, find_item, erase_item, put_item, find-erase_item, find-put_item,
  Unique, erase_item-Unique, put_item-Unique,
}
use andromeda_desktop_client.Folder.{
  Item, Items, Request, move_file, move_folder, backend, Server, Folder, has_item,
}
use andromeda_desktop_client.Folder.Loading.{load_keeps}
use andromeda_desktop_client.Folder.Moves.{
  Moved, moved, failed, send_move, flushed_move, sub_move, transfer, move_into, load_parent,
  move_found, move_loaded, move_item,
}

if_true : {A : Type 0} {b : Bool} (x y : A) → b ≡ true → (if b then x else y) ≡ x
if_true x y e = rw e refl

if_false : {A : Type 0} {b : Bool} (x y : A) → b ≡ false → (if b then x else y) ≡ y
if_false x y e = rw e refl

both : {a b : Bool} → a ≡ true → b ≡ false → (a && not b) ≡ true
both p q = ground arith

no_file : {a : Bool} (b : Bool) → a ≡ false → (a && not b) ≡ false
no_file b p = ground arith

stands : (a : Bool) {b : Bool} → b ≡ true → (a && not b) ≡ false
stands a p = ground arith

third_of : (a b c d : Bool) → c ≡ true → (a || b || c || d) ≡ true
third_of a b c d h = ground arith

last_of : (a b c d : Bool) → d ≡ true → (a || b || c || d) ≡ true
last_of a b c d h = ground arith

module _ {D : Type 0} (server : Server D) (name : Name) (overwrite : Bool) (f parent : Folder) where
  open server use {refuses, flush_cache}

  -- What FlushCache makes of a file that the server does not have, and whether it threw.
  abbrev pub settled : Item → Item × Bool
  settled i = if i.is_file && not i.on_backend then flush_cache i else (i, false)

  abbrev pub move_request : Item → Item → Request
  move_request i j =
      if i.is_file then move_file j.id parent.id overwrite else move_folder j.id parent.id overwrite

  abbrev pub blocked : Item → Bool
  blocked i = f.read_only || parent.read_only || is_empty_text parent.id || i.read_only

  -- What an exception is thrown for.
  abbrev pub stops : Item → Bool
  stops i =
      blocked i
      || (not overwrite && has_item (find_item name parent.items))
      || (settled i).1
      || refuses (move_request i (settled i).0)

  abbrev pub Moves : Moved → Type 0
  Moves (moved g q) =
      (i : Item) × (j : Item) × (find_item name f.items ≡ some i)
      × (settled i ≡ (j, false))
      × (refuses (move_request i j) ≡ false)
      × (blocked i ≡ false)
      × ((overwrite || not (has_item (find_item name parent.items))) ≡ true)
      × ((n : Name) → find_item n g.items ≡ ite (name_discrete name n) none (find_item n f.items))
      × ((n : Name)
          → find_item n q.items ≡ ite (name_discrete name n) (some j) (find_item n parent.items))
      × Unique g.items
      × Unique q.items
      × (g ≡ record f { items = g.items; requests = f.requests ++ move_request i j ∷ [] })
      × (q ≡ record parent { items = q.items })
  Moves (failed e g q) =
      (q ≡ parent)
      × ((g ≡ f)
          ⊎ ((i : Item) × (find_item name f.items ≡ some i)
              × (i.is_file ≡ true)
              × (i.on_backend ≡ false)
              × ((n : Name)
                  → find_item n g.items
                    ≡ ite (name_discrete name n) (some (flush_cache i).0) (find_item n f.items))
              × (g ≡ record f { items = g.items })))
      × ((i : Item) → find_item name f.items ≡ some i → stops i ≡ true)

  module _ (i : Item) (is : find_item name f.items ≡ some i) (uf : Unique f.items)
      (up : Unique parent.items)
      (free : (overwrite || not (has_item (find_item name parent.items))) ≡ true)
      (writable : i.read_only ≡ false → blocked i ≡ false) where
    refused_as : stops i ≡ true → (k : Item) → find_item name f.items ≡ some k → stops k ≡ true
    refused_as h k e = subst (λ x. stops x ≡ true) (same_item k e) h
      where
        same_item : (k : Item) → find_item name f.items ≡ some k → i ≡ k
        same_item k e = cc

    -- From the items of f, the item itself replaced or not.
    transfer-Moves :
        (j : Item) (items : Items)
        → i.read_only ≡ false
        → settled i ≡ (j, false)
        → refuses (move_request i j) ≡ false
        → ((n : Name)
            → find_item n (erase_item name items)
              ≡ ite (name_discrete name n) none (find_item n f.items))
        → Unique items
        → Moves (
            transfer name parent j
              (record f { items = items; requests = f.requests ++ move_request i j ∷ [] }))
    transfer-Moves j items may same accepted out ug = (
      i,
      j,
      is,
      same,
      accepted,
      writable may,
      free,
      out,
      λ n. ground (
        arith,
        find-put_item n name j (erase_item name parent.items),
        find-erase_item n name parent.items,
      ),
      erase_item-Unique name items ug,
      put_item-Unique name j (erase_item name parent.items)
          (erase_item-Unique name parent.items up),
      refl,
      refl,
    )

    -- The request is sent, from the folder with these items.
    send_move_lem :
        (j : Item) (items : Items) (r : Request)
        → i.read_only ≡ false
        → move_request i j ≡ r
        → settled i ≡ (j, false)
        → (stops i ≡ true → Moves (failed backend (record f { items = items }) parent))
        → ((n : Name)
            → find_item n (erase_item name items)
              ≡ ite (name_discrete name n) none (find_item n f.items))
        → Unique items
        → Moves
            (send_move server r (record f { items = items }) parent (λ g. transfer name parent j g))
    send_move_lem j items r may is_request same refused out ug =
        subst
          (λ x. Moves (
            send_move server x (record f { items = items }) parent (λ g. transfer name parent j g)))
          is_request
          (if_lem Moves (refuses (move_request i j)) _ _
            (λ e. refused (
              last_of (blocked i) (not overwrite && has_item (find_item name parent.items))
                (settled i).1 (refuses (move_request i (settled i).0))
                (ap (λ p. refuses (move_request i p.0)) same ∙ e)))
            (λ e. transfer-Moves j items may same e out ug))

    flushed_move-Moves :
        (p : Item × Bool)
        → flush_cache i ≡ p
        → i.is_file ≡ true
        → i.on_backend ≡ false
        → i.read_only ≡ false
        → Moves (flushed_move server name overwrite p f parent (λ j g. transfer name parent j g))
    flushed_move-Moves (j, threw) e file unsent may =
        if_lem Moves threw _ _
          (λ t. left_as (
            third_of (blocked i) (not overwrite && has_item (find_item name parent.items))
              (settled i).1 (refuses (move_request i (settled i).0))
              (ap (λ p. p.1) (if_true _ _ (both file unsent) ∙ e) ∙ t)))
          (λ t.
            send_move_lem j (put_item name j f.items) (move_file j.id parent.id overwrite) may
              (if_true _ _ file) (if_true _ _ (both file unsent) ∙ e ∙ ap (λ b. (j, b)) t) left_as
              (λ n. ground (
                arith,
                find-erase_item n name (put_item name j f.items),
                find-put_item n name j f.items,
              ))
              (put_item-Unique name j f.items uf))
      where
        left_as :
            stops i ≡ true
            → Moves (failed backend (record f { items = put_item name j f.items }) parent)
        left_as h = (
          refl,
          inr (
            i,
            is,
            file,
            unsent,
            λ n.
                subst
                  (λ k.
                    find_item n (put_item name j f.items)
                    ≡ ite (name_discrete name n) (some k.0) (find_item n f.items))
                  (sym e) (find-put_item n name j f.items),
            refl,
          ),
          refused_as h,
        )

    sub_move-Moves :
        Moves (sub_move server name overwrite i f parent (λ j g. transfer name parent j g))
    unfolding sub_move
    sub_move-Moves =
        if_lem Moves i.read_only _ _ (λ e. (refl, inl refl, refused_as (ground (arith, e))))
          (λ e.
            if_lem Moves (not i.is_file) _ _
              (λ folder.
                sent (move_folder i.id parent.id overwrite) e
                  (if_false _ _ (is_false i.is_file folder))
                  (if_false _ _ (no_file i.on_backend (is_false i.is_file folder))))
              (λ file.
                if_lem Moves i.on_backend _ _
                  (λ s.
                    sent (move_file i.id parent.id overwrite) e
                      (if_true _ _ (is_true i.is_file file)) (if_false _ _ (stands i.is_file s)))
                  (λ unsent.
                    flushed_move-Moves (flush_cache i) refl (is_true i.is_file file) unsent e)))
      where
        is_true : (b : Bool) → not b ≡ false → b ≡ true
        is_true b h = ground arith

        is_false : (b : Bool) → not b ≡ true → b ≡ false
        is_false b h = ground arith

        sent :
            (r : Request)
            → i.read_only ≡ false
            → move_request i i ≡ r
            → settled i ≡ (i, false)
            → Moves (send_move server r f parent (λ g. transfer name parent i g))
        sent r may is_request same =
            send_move_lem i f.items r may is_request same (λ h. (refl, inl refl, refused_as h))
              (λ n. find-erase_item n name f.items) uf

  move_found-Moves :
      (o : Option Item)
      → find_item name f.items ≡ o
      → Unique f.items
      → Unique parent.items
      → parent.have_items ≡ true
      → f.read_only ≡ false
      → Moves (move_found server name overwrite o f parent)
  move_found-Moves none e uf up have may = (refl, inl refl, λ k h. absurd (cc))
  move_found-Moves (some i) e uf up have may =
      subst (λ l. Moves (load_parent f l (λ p. move_into server name overwrite i f p)))
        (sym (load_keeps server parent have))
        (if_lem Moves parent.read_only _ _ (λ r. (refl, inl refl, λ k h. ground (arith, r)))
          (λ r.
            if_lem Moves (is_empty_text parent.id) _ _
              (λ q. (refl, inl refl, λ k h. ground (arith, q)))
              (λ q.
                if_lem Moves (not overwrite && has_item (find_item name parent.items)) _ _
                  (λ d. (refl, inl refl, λ k h. ground (arith, d)))
                  (λ d.
                    sub_move-Moves i e uf up
                      (is_free overwrite (has_item (find_item name parent.items)) d)
                      (λ x. none_of may r q x)))))
    where
      none_of :
          {a b c d : Bool}
          → a ≡ false
          → b ≡ false
          → c ≡ false
          → d ≡ false
          → (a || b || c || d) ≡ false
      none_of p q r t = ground arith

      is_free : (a b : Bool) → (not a && b) ≡ false → (a || not b) ≡ true
      is_free a b q = ground arith

  -- MoveItem between two loaded folders in which no name stands twice. Where it returns, no
  -- read-only flag and no item of that name that was to be kept forbade it, a file that the server
  -- did not have was sent there, and the server has accepted one request, to move the item; the
  -- item is gone from the folder and stands in the new parent under its name; every other name has
  -- its item as before in both folders. Where it throws, the new parent is as it was, and so is the
  -- folder, with no request to move accepted, except that a file which the server did not have may
  -- be what FlushCache left of it. It throws only where there is no such item, a flag or a taken name
  -- forbids it, FlushCache throws, or the server refuses.
  pub move_item-Moves :
      f.have_items ≡ true
      → parent.have_items ≡ true
      → Unique f.items
      → Unique parent.items
      → Moves (move_item server name overwrite f parent)
  unfolding move_item
  move_item-Moves have have_parent uf up =
      if_lem Moves f.read_only _ _ (λ r. (refl, inl refl, λ k h. ground (arith, r)))
        (λ r.
          subst (λ l. Moves (move_loaded server name overwrite l parent))
            (sym (load_keeps server f have))
            (move_found-Moves (find_item name f.items) refl uf up have_parent r))
