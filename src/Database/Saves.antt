-- ===== src/Database/Saves.antt =====
-- What Save of BaseObject.cpp does to the row of an object: the row has the values of its fields.
use andromeda_desktop_client.Common.{
  ℕ, ◌<◌, ◌≡◌, ◌≢◌, refl, sym, ◌∙◌, ap, subst, inl, inr, true, false, if◌then◌else◌, ◌==◌, ==_iff,
  Option, none, some, List, [], ◌∷◌, arith, Bool-cases,
}
use andromeda_desktop_client.Database.{MixedValue, null, int, value, is_positive, add32, word32}
use andromeda_desktop_client.Database.Objects.{
  Field, nullable, scalar, counter, field_value, use_db_increment, get_delta, Object,
  all_unmodified, modified_fields, Set, next, set_of, add_param, MixedParams, update_sets,
  insert_columns, Query, updates, Saved, thrown, saved, insert_object, update_object, save,
}
use andromeda_desktop_client.Database.Queries.{
  set_cell, updated, Above, differs, Has, Absent, Distinct, lookup_here, Above-set, skipped,
  Has-Absent, modified_here,
}

no_delta : (d : ℕ) → d < 2147483648 → is_positive d ≡ false → d ≡ 0
no_delta d h e = ground arith

module _ {T : Type 0} where
  -- The column has what the field holds.
  abbrev pub Stored : Field T → MixedValue T → Type 0
  Stored (counter c) cell = cell ≡ int c.count
  Stored f cell = field_value f ≡ some cell

  -- The column has what the field held before the changes that it counts, fewer than 2^31 of them;
  -- the changes of a counter are not below 0 together.
  abbrev pub Tracks : Field T → MixedValue T → Type 0
  Tracks (counter c) cell =
      (c.delta < 2147483648) × (a : ℕ) × (a < word32) × (cell ≡ int a) × (add32 a c.delta ≡ c.count)
  Tracks f cell =
      (get_delta f < 2147483648)
      × (v : MixedValue T) × (field_value f ≡ some v)
      × (get_delta f ≡ 0 → cell ≡ v)

  abbrev pub AllTrack : (ℕ → MixedValue T) → List (ℕ × Field T) → Type 0
  AllTrack row [] = Unit {0}
  AllTrack row ((j, g) ∷ fs) = Tracks g (row j) × AllTrack row fs

  value_of :
      (f : Field T) (cell : MixedValue T)
      → Tracks f cell
      → (v : MixedValue T) × (field_value f ≡ some v)
  unfolding field_value
  value_of (nullable f) cell (small, v, here, track) = (v, here)
  value_of (scalar f) cell (small, v, here, track) = (v, here)
  value_of (counter c) cell h = (int c.delta, refl)

  -- A field that is not modified is stored.
  unmodified-Stored :
      (f : Field T) (cell : MixedValue T)
      → Tracks f cell
      → is_positive (get_delta f) ≡ false
      → Stored f cell
  unfolding add32
  unmodified-Stored (nullable f) cell (small, v, here, track) e =
      here ∙ ap some (sym (track (no_delta f.delta small e)))
  unmodified-Stored (scalar f) cell (small, v, here, track) e =
      here ∙ ap some (sym (track (no_delta f.delta small e)))
  unmodified-Stored (counter c) cell (small, a, word_a, at, sum) e =
      at ∙ ap int (omega (arith, no_delta c.delta small e, word_a, sum))

  -- What is set for a modified field is its value.
  set-Stored :
      (f : Field T) (cell v : MixedValue T) (i : ℕ) (params : MixedParams T)
      → Tracks f cell
      → field_value f ≡ some v
      → Stored f (set_cell (set_of (use_db_increment f) v i) (add_param i v params) cell)
  unfolding field_value
  set-Stored (nullable f) cell null i params h e = e
  set-Stored (nullable f) cell (int n) i params h e = rw (lookup_here i (int n) params) e
  set-Stored (nullable f) cell (value n) i params h e = rw (lookup_here i (value n) params) e
  set-Stored (scalar f) cell null i params h e = e
  set-Stored (scalar f) cell (int n) i params h e = rw (lookup_here i (int n) params) e
  set-Stored (scalar f) cell (value n) i params h e = rw (lookup_here i (value n) params) e
  set-Stored (counter c) cell null i params h e = absurd (cc)
  set-Stored (counter c) cell (value n) i params h e = absurd (cc)
  set-Stored (counter c) cell (int n) i params (small, a, word_a, at, sum) e =
      let same : n ≡ c.delta = cc in rw (lookup_here i (int n) params, at, same) (ap int sum)

  -- What the loop over the modified fields gives.
  record Built (row : ℕ → MixedValue T) (i : ℕ) (fs : List (ℕ × Field T)) : Type 0 where
    sets : List (ℕ × Set)
    params : MixedParams T
    result : update_sets i (modified_fields fs) ≡ some (sets, params)
    above : Above i sets
    absent : (k : ℕ) → Absent k fs → (old : MixedValue T) → updated sets params k old ≡ old
    stored : (k : ℕ) (f : Field T) → Has k f fs → Stored f (updated sets params k (row k))

  -- A field that is not modified sets nothing.
  keep :
      (row : ℕ → MixedValue T) (i j : ℕ) (g : Field T) (fs : List (ℕ × Field T))
      → Absent j fs
      → Tracks g (row j)
      → is_positive (get_delta g) ≡ false
      → Built row i fs
      → Built row i ((j, g) ∷ fs)
  unfolding modified_fields
  keep row i j g fs away h e b = record {
    sets = b.sets;
    params = b.params;
    result = rw e b.result;
    above = b.above;
    absent = λ k a old. b.absent k a.1 old;
    stored = λ k f has. elim has [
      | inl (at, same) ↦
          rw (sym at, sym same, b.absent j away (row j)) (unmodified-Stored g (row j) h e)
      | inr has' ↦ b.stored k f has'
    ];
  }

  update_sets_lem :
      (i j : ℕ) (g : Field T) (fs : List (ℕ × Field T)) (v : MixedValue T) (sets : List (ℕ × Set))
      (params : MixedParams T)
      → field_value g ≡ some v
      → update_sets (next v i) fs ≡ some (sets, params)
      → update_sets i ((j, g) ∷ fs)
        ≡ some ((j, set_of (use_db_increment g) v i) ∷ sets, add_param i v params)
  unfolding update_sets
  update_sets_lem i j g fs v sets params here rest = rw (update_sets, here, rest) refl

  -- A modified field is set.
  extend :
      (row : ℕ → MixedValue T) (i j : ℕ) (g : Field T) (fs : List (ℕ × Field T)) (v : MixedValue T)
      → Absent j fs
      → Tracks g (row j)
      → is_positive (get_delta g) ≡ true
      → field_value g ≡ some v
      → Built row (next v i) fs
      → Built row i ((j, g) ∷ fs)
  extend row i j g fs v away h e here b = record {
    sets = (j, set_of (use_db_increment g) v i) ∷ b.sets;
    params = add_param i v b.params;
    result =
        ap (update_sets i) (modified_here j g fs e)
        ∙ update_sets_lem i j g (modified_fields fs) v _ _ here b.result;
    above = Above-set (use_db_increment g) v i j b.sets b.above;
    absent = λ k a old.
        rw (differs j k a.0) (skipped b.sets i k v old b.params b.above ∙ b.absent k a.1 old);
    stored = λ k f has. elim has [
      | inl (at, same) ↦
          subst
            (λ n. Stored f (
              updated ((j, set_of (use_db_increment g) v i) ∷ b.sets) (add_param i v b.params) n
                (row n)))
            at
            (subst
              (λ f'. Stored f' (
                updated ((j, set_of (use_db_increment g) v i) ∷ b.sets) (add_param i v b.params) j
                  (row j)))
              same (rw ((==_iff j j).1 refl) (set-Stored g (row j) v i b.params h here)))
      | inr has' ↦
          rw (Has-Absent fs j k f away has')
            (rw (skipped b.sets i k v (row k) b.params b.above) (b.stored k f has'))
    ];
  }

  built :
      (row : ℕ → MixedValue T) (i : ℕ) (fs : List (ℕ × Field T))
      → Distinct fs
      → AllTrack row fs
      → Built row i fs
  unfolding modified_fields update_sets
  built row i [] d t = record {
    sets = [];
    params = [];
    result = refl;
    above = tt;
    absent = λ k a old. refl;
    stored = λ k f has. absurd has;
  }
  built row i ((j, g) ∷ fs) d t = elim (Bool-cases (is_positive (get_delta g))) [
    | inr e ↦ keep row i j g fs d.0 t.0 e (built row i fs d.1 t.1)
    | inl e ↦
        let (v, here) = value_of g (row j) t.0 in
        extend row i j g fs v d.0 t.0 e here (built row (next v i) fs d.1 t.1)
  ]

  -- The row of an object after a query that updates it.
  abbrev pub row_after : Option (Query T) → (ℕ → MixedValue T) → ℕ → MixedValue T
  row_after (some (updates sets params)) row k = updated sets params k (row k)
  row_after q row k = row k

  abbrev pub Saves : (Query T → ℕ) → Object T → (ℕ → MixedValue T) → Saved T → Type 0
  Saves affected o row (thrown p) =
      (p ≡ o)
      × (sets : List (ℕ × Set)) × (params : MixedParams T) × (update_sets 0
            (modified_fields o.fields)
          ≡ some (sets, params))
      × (affected (updates sets params) ≢ 1)
  Saves affected o row (saved p none) =
      (p ≡ record { created = false; fields = all_unmodified o.fields })
      × ((k : ℕ) (f : Field T) → Has k f o.fields → Stored f (row k))
  Saves affected o row (saved p (some q)) =
      (affected q ≡ 1)
      × (p ≡ record { created = false; fields = all_unmodified o.fields })
      × ((k : ℕ) (f : Field T) → Has k f o.fields → Stored f (row_after (some q) row k))

  save-old :
      (affected : Query T → ℕ) (o : Object T)
      → o.created ≡ false
      → save affected o ≡ update_object affected o (update_sets 0 (modified_fields o.fields))
  unfolding save
  save-old affected o old =
      ap
        (λ b.
          if b
          then insert_object affected o (insert_columns 0 (modified_fields o.fields))
          else update_object affected o (update_sets 0 (modified_fields o.fields)))
        old

  -- Save of an object that is in the database, where the row follows the fields up to the changes
  -- that they count and no counter has fallen: either the query that sets the modified fields does
  -- not change exactly one row, Save throws and the object still counts its changes; or no field is
  -- modified any more and the row has what every field holds, of the fields that were not modified
  -- too, after a query that has changed one row or after none.
  pub save-Saves :
      (affected : Query T → ℕ) (o : Object T) (row : ℕ → MixedValue T)
      → o.created ≡ false
      → Distinct o.fields
      → AllTrack row o.fields
      → Saves affected o row (save affected o)
  unfolding update_object
  save-Saves affected o row old d t =
      let b = built row 0 o.fields d t in
      subst (Saves affected o row)
        (sym (save-old affected o old ∙ ap (update_object affected o) b.result))
        (go b.sets b.params b.result b.stored)
    where
      go :
          (sets : List (ℕ × Set)) (params : MixedParams T)
          → update_sets 0 (modified_fields o.fields) ≡ some (sets, params)
          → ((k : ℕ) (f : Field T) → Has k f o.fields → Stored f (updated sets params k (row k)))
          → Saves affected o row (update_object affected o (some (sets, params)))
      go [] params is h = (refl, h)
      go (s ∷ sets) params is h = elim (Bool-cases (affected (updates (s ∷ sets) params) == 1)) [
        | inl e ↦ rw e ((==_iff (affected (updates (s ∷ sets) params)) 1).0 e, refl, h)
        | inr e ↦ rw e (refl, s ∷ sets, params, is, λ q. absurd (ground arith))
      ]
