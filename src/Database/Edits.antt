-- ===== src/Database/Edits.antt =====
-- What the setters of the fields of src/lib/andromeda/database/fieldtypes do to what is saved.
use andromeda_desktop_client.Common.{
  ℕ, ◌≤◌, ◌<◌, ◌≡◌, ◌≢◌, refl, sym, ◌∙◌, ap, Bool, true, false, not, ◌&&◌, ◌||◌, if◌then◌else◌,
  ◌==◌, none, some, [], ◌∷◌, arith,
}
use andromeda_desktop_client.Database.{
  MixedValue, null, int, value, Changed, is_positive, add32, word32,
}
use andromeda_desktop_client.Database.NullScalar
use andromeda_desktop_client.Database.Scalar
use andromeda_desktop_client.Database.Counter
use andromeda_desktop_client.Database.NullScalar.{NullScalarType}
use andromeda_desktop_client.Database.Scalar.{ScalarType}
use andromeda_desktop_client.Database.Counter.{CounterType}
use andromeda_desktop_client.Database.Objects.{
  Field, nullable, scalar, counter, field_value, get_delta, save, saved, Query, modified_fields,
  update_sets, all_unmodified,
}
use andromeda_desktop_client.Database.Saves.{Tracks}

-- One call of a setter.
pub data Edit {T : Type 0} (same : T → T → Bool) : Field T → Field T → Type 0 where
  sets_nullable :
      (v : T) (is_temp : Bool) (f : NullScalarType T)
      → Edit same (nullable f) (nullable (NullScalar.set_value same v is_temp f).field)
  sets_null :
      (is_temp : Bool) (f : NullScalarType T)
      → Edit same (nullable f) (nullable (NullScalar.set_null is_temp f).field)
  sets_scalar :
      (v : T) (is_temp : Bool) (f : ScalarType T)
      → Edit same (scalar f) (scalar (Scalar.set_value same v is_temp f).field)
  adds_delta :
      (d : ℕ) (c : CounterType) → Edit same (counter c) (counter (Counter.delta_value d c).field)

add32_one : (d : ℕ) → d < 2147483648 → add32 d 1 ≢ 0
unfolding add32
add32_one d h e = omega arith

add32_assoc : (a b c : ℕ) → add32 a (add32 b c) ≡ add32 (add32 a b) c
unfolding add32
add32_assoc a b c = omega arith

moved : (a d : ℕ) → 2147483648 ≤ d → d < word32 → a < word32 → add32 a d ≡ add32 a 0 → ⊥
unfolding add32
moved a d h k w e = omega arith

abbrev pub Small : {T : Type 0} → Field T → Type 0
Small f = get_delta f < 2147483648

module _ {T : Type 0} where
  if-Tracks :
      {A : Type 0} (F : A → Field T) (b : Bool) (d e : Changed A) (cell : MixedValue T)
      → (Small (F d.field) → Tracks (F d.field) cell)
      → (Small (F e.field) → Tracks (F e.field) cell)
      → Small (F (if b then d else e).field)
      → Tracks (F (if b then d else e).field) cell
  if-Tracks F true d e cell h k = h
  if-Tracks F false d e cell h k = k

  -- A setter keeps the column of a field the value that the field had before the changes that are
  -- counted, or of a counter the difference, as long as fewer than 2^31 changes are counted and no
  -- counter has fallen.
  pub Edit-Tracks :
      {same : T → T → Bool} {f g : Field T} (cell : MixedValue T)
      → Edit same f g
      → Small g
      → Tracks f cell
      → Tracks g cell
  unfolding NullScalar.set_value NullScalar.set_null Scalar.set_value Counter.delta_value
      field_value
  Edit-Tracks {same} cell (sets_nullable v is_temp f) fits (small, w, here, track) =
      if-Tracks nullable (not is_temp && not (same f.real_value v)) _ _ cell
        (λ s. (s, value v, refl, λ z. absurd (add32_one f.delta small z)))
        (λ s. (s, w, here, track)) fits
  Edit-Tracks {same} cell (sets_null is_temp f) fits (small, w, here, track) =
      if-Tracks nullable (not is_temp && not f.real_null) _ _ cell
        (λ s. (s, null, refl, λ z. absurd (add32_one f.delta small z))) (λ s. (s, w, here, track))
        fits
  Edit-Tracks {same} cell (sets_scalar v is_temp f) fits (small, w, here, track) =
      if-Tracks scalar (not is_temp && (not f.real_initd || not (same f.real_value v))) _ _ cell
        (λ s. (s, value v, refl, λ z. absurd (add32_one f.delta small z)))
        (λ s. (s, w, here, track)) fits
  Edit-Tracks {same} cell (adds_delta d c) fits (small, a, word_a, at, sum) =
      if-Tracks counter (d == 0) _ _ cell (λ s. (s, a, word_a, at, sum))
        (λ s. (s, a, word_a, at, add32_assoc a c.delta d ∙ ap (λ t. add32 t d) sum)) fits

  -- SetValue of a nullable field, not a temporary one: the field reads as the value. It counts a
  -- change exactly where the value differs from the one that was stored last, and what is to be saved
  -- is then the value. Where it is equal nothing is counted, and a field that was null is still to be
  -- saved as null.
  pub set_value_lem :
      (same : T → T → Bool) (v : T) (f : NullScalarType T)
      → ((a b : T) → same a b ≡ true → a ≡ b)
      → (NullScalar.try_get_value true (NullScalar.set_value same v false f).field ≡ some v)
        × ((NullScalar.set_value same v false f).modified ≡ not (same f.real_value v))
        × ((NullScalar.set_value same v false f).field.delta
            ≡ (if same f.real_value v then f.delta else add32 f.delta 1))
        × (NullScalar.get_db_value (NullScalar.set_value same v false f).field
            ≡ (if same f.real_value v && f.real_null then null else value v))
  unfolding NullScalar.set_value NullScalar.try_get_value NullScalar.get_db_value
  set_value_lem same v f reflect = go (same f.real_value v) f.real_null refl refl
    where
      go :
          (b n : Bool)
          → same f.real_value v ≡ b
          → f.real_null ≡ n
          → (NullScalar.try_get_value true (NullScalar.set_value same v false f).field ≡ some v)
            × ((NullScalar.set_value same v false f).modified ≡ not (same f.real_value v))
            × ((NullScalar.set_value same v false f).field.delta
                ≡ (if same f.real_value v then f.delta else add32 f.delta 1))
            × (NullScalar.get_db_value (NullScalar.set_value same v false f).field
                ≡ (if same f.real_value v && f.real_null then null else value v))
      go false n e m = rw e (refl, refl, refl, refl)
      go true true e m = rw (e, m) (refl, refl, refl, refl)
      go true false e m = rw (e, m) (refl, refl, refl, ap value (reflect f.real_value v e))

  -- A counter that has fallen since it was loaded: Save sends nothing, and the counter then goes on
  -- from a value that its column does not have.
  pub fallen-dropped :
      (affected : Query T → ℕ) (k a : ℕ) (c : CounterType)
      → 2147483648 ≤ c.delta
      → c.delta < word32
      → a < word32
      → add32 a c.delta ≡ c.count
      → (save affected (record { created = false; fields = (k, counter c) ∷ [] })
          ≡ saved
              (record { created = false; fields = (k, counter (record c { delta = 0 })) ∷ [] })
              none)
        × (¬ (Tracks {T = T} (counter (record c { delta = 0 })) (int a)))
  unfolding save modified_fields update_sets all_unmodified
  fallen-dropped affected k a c fallen word_d word_a sum =
      let no : is_positive c.delta ≡ false = ground arith in
      (
        rw no refl,
        λ t.
            let (small, b, word_b, at, still) = t in
            let same : a ≡ b = cc in
            moved a c.delta fallen word_d word_a (sum ∙ sym still ∙ ap (λ x. add32 x 0) (sym same)),
      )
