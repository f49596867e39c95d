-- ===== src/Database/Inserts.antt =====
-- What Save of BaseObject.cpp does with a new object: the row that it inserts has the values of its
-- fields.
use andromeda_desktop_client.Common.{
  ℕ, ◌≡◌, ◌≢◌, refl, sym, ◌∙◌, ap, subst, inl, inr, Bool, true, false, ◌||◌, if◌then◌else◌, ◌==◌,
  ==_iff, Option, none, some, List, [], ◌∷◌, arith, Bool-cases,
}
use andromeda_desktop_client.Database.{MixedValue, null, int, value, is_positive}
use andromeda_desktop_client.Database.Objects.{
  Field, field_value, get_delta, Object, all_unmodified, modified_fields, Set, to_null, assigns,
  next, set_of, add_param, MixedParams, update_sets, index_of, insert_columns, Query, inserts,
  Saved, thrown, saved, insert_object, update_object, save,
}
use andromeda_desktop_client.Database.Queries.{
  set_cell, updated, Above, differs, Has, Absent, Distinct, lookup_here, Above-set, skipped,
  Has-Absent, modified_here,
}

-- The columns of a new row as what is set in a row of nulls.
abbrev pub as_set : Option ℕ → Set
as_set none = to_null
as_set (some i) = assigns i

abbrev pub as_sets : List (ℕ × Option ℕ) → List (ℕ × Set)
as_sets [] = []
as_sets ((k, o) ∷ columns) = (k, as_set o) ∷ as_sets columns

abbrev pub is_listed : ℕ → List (ℕ × Option ℕ) → Bool
is_listed k [] = false
is_listed k ((j, o) ∷ columns) = j == k || is_listed k columns

module _ {T : Type 0} where
  as_set-index_of : (v : MixedValue T) (i : ℕ) → as_set (index_of v i) ≡ set_of false v i
  as_set-index_of null i = refl
  as_set-index_of (int n) i = refl
  as_set-index_of (value n) i = refl

  -- A modified field gives its column; any other column is left out.
  abbrev pub Given : Bool → Field T → MixedValue T → Type 0
  Given true f cell = field_value f ≡ some cell
  Given false f cell = cell ≡ null

  abbrev pub AllReady : List (ℕ × Field T) → Type 0
  AllReady [] = Unit {0}
  AllReady ((k, f) ∷ fs) =
      (is_positive (get_delta f) ≡ true → (v : MixedValue T) × (field_value f ≡ some v))
      × AllReady fs

  set_cell-value :
      (v : MixedValue T) (i : ℕ) (params : MixedParams T)
      → set_cell (set_of false v i) (add_param i v params) null ≡ v
  set_cell-value null i params = refl
  set_cell-value (int n) i params = lookup_here i (int n) params
  set_cell-value (value n) i params = lookup_here i (value n) params

  -- What the loop over the modified fields gives.
  record Built (i : ℕ) (fs : List (ℕ × Field T)) : Type 0 where
    columns : List (ℕ × Option ℕ)
    params : MixedParams T
    result : insert_columns i (modified_fields fs) ≡ some (columns, params)
    above : Above i (as_sets columns)
    absent : (k : ℕ) → Absent k fs → updated (as_sets columns) params k null ≡ null
    given :
        (k : ℕ) (f : Field T)
        → Has k f fs
        → Given (is_positive (get_delta f)) f (updated (as_sets columns) params k null)
    unlisted : (k : ℕ) → Absent k fs → is_listed k columns ≡ false
    listed : (k : ℕ) (f : Field T) → Has k f fs → is_listed k columns ≡ is_positive (get_delta f)

  -- A field that is not modified is left out.
  omit :
      (i j : ℕ) (g : Field T) (fs : List (ℕ × Field T))
      → Absent j fs
      → is_positive (get_delta g) ≡ false
      → Built i fs
      → Built i ((j, g) ∷ fs)
  unfolding modified_fields
  omit i j g fs away e b = record {
    columns = b.columns;
    params = b.params;
    result = rw e b.result;
    above = b.above;
    absent = λ k a. b.absent k a.1;
    given = λ k f has. elim has [
      | inl (at, same) ↦ rw (sym at, sym same, e) (b.absent j away)
      | inr has' ↦ b.given k f has'
    ];
    unlisted = λ k a. b.unlisted k a.1;
    listed = λ k f has. elim has [
      | inl (at, same) ↦ rw (sym at, sym same, e) (b.unlisted j away)
      | inr has' ↦ b.listed k f has'
    ];
  }

  insert_columns_lem :
      (i j : ℕ) (g : Field T) (fs : List (ℕ × Field T)) (v : MixedValue T)
      (columns : List (ℕ × Option ℕ)) (params : MixedParams T)
      → field_value g ≡ some v
      → insert_columns (next v i) fs ≡ some (columns, params)
      → insert_columns i ((j, g) ∷ fs) ≡ some ((j, index_of v i) ∷ columns, add_param i v params)
  unfolding insert_columns
  insert_columns_lem i j g fs v columns params here rest = rw (insert_columns, here, rest) refl

  -- A modified field is given.
  extend :
      (i j : ℕ) (g : Field T) (fs : List (ℕ × Field T)) (v : MixedValue T)
      → Absent j fs
      → is_positive (get_delta g) ≡ true
      → field_value g ≡ some v
      → Built (next v i) fs
      → Built i ((j, g) ∷ fs)
  extend i j g fs v away e here b =
      let column = (j, index_of v i) ∷ b.columns in
      let cell = λ (k : ℕ). updated (as_sets column) (add_param i v b.params) k null in
      record {
        columns = column;
        params = add_param i v b.params;
        result =
            ap (insert_columns i) (modified_here j g fs e)
            ∙ insert_columns_lem i j g (modified_fields fs) v b.columns b.params here b.result;
        above = rw (as_set-index_of v i) (Above-set false v i j (as_sets b.columns) b.above);
        absent = λ k a.
            rw (differs j k a.0)
              (skipped (as_sets b.columns) i k v null b.params b.above ∙ b.absent k a.1);
        given = λ k f has. elim has [
          | inl (at, same) ↦
              subst (λ n. Given (is_positive (get_delta f)) f (cell n)) at
                (subst (λ x. Given (is_positive (get_delta x)) x (cell j)) same
                  (rw (e, (==_iff j j).1 refl, as_set-index_of v i, set_cell-value v i b.params)
                    here))
          | inr has' ↦
              rw (Has-Absent fs j k f away has')
                (rw (skipped (as_sets b.columns) i k v null b.params b.above) (b.given k f has'))
        ];
        unlisted = λ k a. rw (differs j k a.0) (b.unlisted k a.1);
        listed = λ k f has. elim has [
          | inl (at, same) ↦ rw (sym at, sym same, e, (==_iff j j).1 refl) refl
          | inr has' ↦ rw (Has-Absent fs j k f away has') (b.listed k f has')
        ];
      }

  built : (i : ℕ) (fs : List (ℕ × Field T)) → Distinct fs → AllReady fs → Built i fs
  unfolding modified_fields insert_columns
  built i [] d t = record {
    columns = [];
    params = [];
    result = refl;
    above = tt;
    absent = λ k a. refl;
    given = λ k f has. absurd has;
    unlisted = λ k a. refl;
    listed = λ k f has. absurd has;
  }
  built i ((j, g) ∷ fs) d t = elim (Bool-cases (is_positive (get_delta g))) [
    | inr e ↦ omit i j g fs d.0 e (built i fs d.1 t.1)
    | inl e ↦ let (v, here) = t.0 e in extend i j g fs v d.0 e here (built (next v i) fs d.1 t.1)
  ]

  abbrev pub Inserts : (Query T → ℕ) → Object T → Saved T → Type 0
  Inserts affected o (thrown p) =
      (p ≡ o)
      × (columns : List (ℕ × Option ℕ)) × (params : MixedParams T) × (insert_columns 0
            (modified_fields o.fields)
          ≡ some (columns, params))
      × (affected (inserts columns params) ≢ 1)
  Inserts affected o (saved p (some (inserts columns params))) =
      (affected (inserts columns params) ≡ 1)
      × (p ≡ record { created = false; fields = all_unmodified o.fields })
      × ((k : ℕ) (f : Field T)
          → Has k f o.fields
          → Given (is_positive (get_delta f)) f (updated (as_sets columns) params k null))
      × ((k : ℕ) (f : Field T) → Has k f o.fields → is_listed k columns ≡ is_positive (get_delta f))
  Inserts affected o (saved p q) = ⊥

  save-created :
      (affected : Query T → ℕ) (o : Object T)
      → o.created ≡ true
      → save affected o ≡ insert_object affected o (insert_columns 0 (modified_fields o.fields))
  unfolding save
  save-created affected o new =
      ap
        (λ b.
          if b
          then insert_object affected o (insert_columns 0 (modified_fields o.fields))
          else update_object affected o (update_sets 0 (modified_fields o.fields)))
        new

  -- Save of a new object in which every modified field has a value: either the query that inserts
  -- the modified fields does not insert exactly one row, Save throws and the object is still new and
  -- still counts its changes; or the query has inserted one row, the object is one of the database
  -- without changes, the row has what every modified field holds, and the query lists the columns of
  -- exactly the modified fields.
  pub save-Inserts :
      (affected : Query T → ℕ) (o : Object T)
      → o.created ≡ true
      → Distinct o.fields
      → AllReady o.fields
      → Inserts affected o (save affected o)
  unfolding insert_object
  save-Inserts affected o new d t =
      let b = built 0 o.fields d t in
      subst (Inserts affected o)
        (sym (save-created affected o new ∙ ap (insert_object affected o) b.result))
        (go b.columns b.params b.result b.given b.listed)
    where
      go :
          (columns : List (ℕ × Option ℕ)) (params : MixedParams T)
          → insert_columns 0 (modified_fields o.fields) ≡ some (columns, params)
          → ((k : ℕ) (f : Field T)
              → Has k f o.fields
              → Given (is_positive (get_delta f)) f (updated (as_sets columns) params k null))
          → ((k : ℕ) (f : Field T)
              → Has k f o.fields
              → is_listed k columns ≡ is_positive (get_delta f))
          → Inserts affected o (insert_object affected o (some (columns, params)))
      go columns params is h l = elim (Bool-cases (affected (inserts columns params) == 1)) [
        | inl e ↦ rw e ((==_iff (affected (inserts columns params)) 1).0 e, refl, h, l)
        | inr e ↦ rw e (refl, columns, params, is, λ q. absurd (ground arith))
      ]
