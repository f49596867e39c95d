-- ===== src/Database/Queries.antt =====
-- What a query of ObjectDatabase.cpp says of the columns of a row, and the fields that stand under
-- the columns.
use andromeda_desktop_client.Common.{
  ℕ, ◌+◌, ◌≤◌, ◌≡◌, ◌≢◌, refl, sym, ◌∙◌, ◌⊎◌, inl, inr, Bool, true, false, if◌then◌else◌, ◌==◌,
  ==_iff, List, [], ◌∷◌, arith,
}
use andromeda_desktop_client.Database.{MixedValue, null, int, value, is_positive, add32}
use andromeda_desktop_client.Database.Objects.{
  Field, get_delta, modified_fields, Set, to_null, adds, assigns, next, set_of, add_param,
  MixedParams,
}

abbrev pub lookup_param : {T : Type 0} → ℕ → MixedParams T → MixedValue T
lookup_param i [] = null
lookup_param i ((j, v) ∷ params) = if j == i then v else lookup_param i params

abbrev pub plus : {T : Type 0} → MixedValue T → MixedValue T → MixedValue T
plus (int a) (int d) = int (add32 a d)
plus a d = null

-- A column after what is set for it.
abbrev pub set_cell : {T : Type 0} → Set → MixedParams T → MixedValue T → MixedValue T
set_cell to_null params old = null
set_cell (adds i) params old = plus old (lookup_param i params)
set_cell (assigns i) params old = lookup_param i params

abbrev pub updated : {T : Type 0} → List (ℕ × Set) → MixedParams T → ℕ → MixedValue T → MixedValue T
updated [] params k old = old
updated ((j, s) ∷ sets) params k old =
    if j == k then set_cell s params old else updated sets params k old

-- The placeholders are from `i` on.
abbrev pub Above : ℕ → List (ℕ × Set) → Type 0
Above i [] = Unit {0}
Above i ((k, to_null) ∷ sets) = Above i sets
Above i ((k, adds j) ∷ sets) = (i ≤ j) × Above i sets
Above i ((k, assigns j) ∷ sets) = (i ≤ j) × Above i sets

pub Above-mono : (i : ℕ) (sets : List (ℕ × Set)) → Above (i + 1) sets → Above i sets
Above-mono i [] h = tt
Above-mono i ((k, to_null) ∷ sets) h = Above-mono i sets h
Above-mono i ((k, adds j) ∷ sets) h = (omega (arith, h.0), Above-mono i sets h.1)
Above-mono i ((k, assigns j) ∷ sets) h = (omega (arith, h.0), Above-mono i sets h.1)

pub differs : (j k : ℕ) → j ≢ k → (j == k) ≡ false
differs j k h = ground arith

module _ {T : Type 0} where
  abbrev pub Has : ℕ → Field T → List (ℕ × Field T) → Type 0
  Has k f [] = ⊥
  Has k f ((j, g) ∷ fs) = ((j ≡ k) × (g ≡ f)) ⊎ Has k f fs

  abbrev pub Absent : ℕ → List (ℕ × Field T) → Type 0
  Absent k [] = Unit {0}
  Absent k ((j, g) ∷ fs) = (j ≢ k) × Absent k fs

  abbrev pub Distinct : List (ℕ × Field T) → Type 0
  Distinct [] = Unit {0}
  Distinct ((j, g) ∷ fs) = Absent j fs × Distinct fs

  pub lookup_here :
      (i : ℕ) (v : MixedValue T) (params : MixedParams T) → lookup_param i ((i, v) ∷ params) ≡ v
  lookup_here i v params = let same : (i == i) ≡ true = (==_iff i i).1 refl in rw same refl

  -- A placeholder that nothing after it uses.
  pub updated-fresh :
      (sets : List (ℕ × Set)) (i k : ℕ) (v old : MixedValue T) (params : MixedParams T)
      → Above (i + 1) sets
      → updated sets ((i, v) ∷ params) k old ≡ updated sets params k old
  updated-fresh [] i k v old params h = refl
  updated-fresh ((j, to_null) ∷ sets) i k v old params h =
      rw (updated-fresh sets i k v old params h) refl
  updated-fresh ((j, adds m) ∷ sets) i k v old params h =
      let other : (i == m) ≡ false = ground arith in
      rw (other, updated-fresh sets i k v old params h.1) refl
  updated-fresh ((j, assigns m) ∷ sets) i k v old params h =
      let other : (i == m) ≡ false = ground arith in
      rw (other, updated-fresh sets i k v old params h.1) refl

  pub Above-set :
      (b : Bool) (v : MixedValue T) (i k : ℕ) (sets : List (ℕ × Set))
      → Above (next v i) sets
      → Above i ((k, set_of b v i) ∷ sets)
  Above-set b null i k sets h = h
  Above-set true (int n) i k sets h = (omega arith, Above-mono i sets h)
  Above-set false (int n) i k sets h = (omega arith, Above-mono i sets h)
  Above-set true (value n) i k sets h = (omega arith, Above-mono i sets h)
  Above-set false (value n) i k sets h = (omega arith, Above-mono i sets h)

  pub skipped :
      (sets : List (ℕ × Set)) (i k : ℕ) (v old : MixedValue T) (params : MixedParams T)
      → Above (next v i) sets
      → updated sets (add_param i v params) k old ≡ updated sets params k old
  skipped sets i k null old params h = refl
  skipped sets i k (int n) old params h = updated-fresh sets i k (int n) old params h
  skipped sets i k (value n) old params h = updated-fresh sets i k (value n) old params h

  pub Has-Absent :
      (fs : List (ℕ × Field T)) (j k : ℕ) (f : Field T)
      → Absent j fs
      → Has k f fs
      → (j == k) ≡ false
  Has-Absent [] j k f a h = absurd h
  Has-Absent ((m, g) ∷ fs) j k f a (inl e) = differs j k (λ q. a.0 (e.0 ∙ sym q))
  Has-Absent ((m, g) ∷ fs) j k f a (inr h) = Has-Absent fs j k f a.1 h

  pub modified_here :
      (j : ℕ) (g : Field T) (fs : List (ℕ × Field T))
      → is_positive (get_delta g) ≡ true
      → modified_fields ((j, g) ∷ fs) ≡ (j, g) ∷ modified_fields fs
  unfolding modified_fields
  modified_here j g fs e = rw e refl
