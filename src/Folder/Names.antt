-- ===== src/Folder/Names.antt =====
-- The names of items, with ValidateName of src/lib/andromeda/filesystem/Item.cpp, and a std::map
-- from names as an association list, whose order stands for nothing.
use mathlib.Core.List.{tail-eq_of_cons-eq, head-eq_of_cons-eq, cons≢nil}
use andromeda_desktop_client.Common.{
  ℕ, ◌≡◌, ◌≢◌, refl, sym, Bool, true, false, not, ◌||◌, if◌then◌else◌, ite, List, [], ◌∷◌, Option,
  none, some, arith, ℕ_discrete,
}
use andromeda_desktop_client.StringUtil.{find}
use andromeda_desktop_client.Backend.HttpRunner.{is_found}

abbrev pub Name : Type 0
Name = List ℕ

-- Equality of names.
unfoldable pub name_discrete : Discrete Name
name_discrete [] [] = yes refl
name_discrete [] (y ∷ ys) = no (λ e. cons≢nil (sym e))
name_discrete (x ∷ xs) [] = no (λ e. cons≢nil e)
name_discrete (x ∷ xs) (y ∷ ys) = both (ℕ_discrete x y) (name_discrete xs ys)
  where
    both : Dec (x ≡ y) → Dec (Path Name xs ys) → Dec (Path Name (x ∷ xs) (y ∷ ys))
    both (yes p) (yes q) = yes (λ i. p i ∷ q i)
    both (yes p) (no q) = no (λ e. q (tail-eq_of_cons-eq e))
    both (no p) q = no (λ e. p (head-eq_of_cons-eq e))

abbrev is_name : Name → Name → Bool
is_name a b = ite (name_discrete a b) true false

-- ValidateName, where it does not throw.
unfoldable pub is_valid : Name → Bool
unfolding name_discrete find
is_valid name = not (
    is_name name (b'.' ∷ []) || is_name name (b'.' ∷ b'.' ∷ []) || is_found (find (b'/' ∷ []) name))

-- What holds of both branches.
pub if_lem :
    {A : Type 0} (P : A → Type 0) (b : Bool) (x y : A)
    → (b ≡ true → P x)
    → (b ≡ false → P y)
    → P (if b then x else y)
if_lem P true x y h k = h refl
if_lem P false x y h k = k refl

module _ {V : Type 0} where
  unfoldable pub find_item : Name → List (Name × V) → Option V
  find_item k [] = none
  find_item k ((n, v) ∷ l) = ite (name_discrete n k) (some v) (find_item k l)

  unfoldable pub erase_item : Name → List (Name × V) → List (Name × V)
  erase_item k [] = []
  erase_item k ((n, v) ∷ l) = ite (name_discrete n k) (erase_item k l) ((n, v) ∷ erase_item k l)

  -- items[k] = v.
  unfoldable pub put_item : Name → V → List (Name × V) → List (Name × V)
  put_item k v l = (k, v) ∷ erase_item k l

  -- items.emplace(k, v), with what stands under the name.
  abbrev emplaced : Name → V → List (Name × V) → Option V → List (Name × V)
  emplaced k v l none = (k, v) ∷ l
  emplaced k v l (some w) = l

  unfoldable pub emplace_item : Name → V → List (Name × V) → List (Name × V)
  unfolding find_item
  emplace_item k v l = emplaced k v l (find_item k l)

  -- No name stands twice.
  abbrev pub Unique : List (Name × V) → Type 0
  Unique [] = Unit {0}
  Unique ((n, v) ∷ l) = (find_item n l ≡ none) × Unique l

  pub find_item-here :
      (j n : Name) (v : V) (l : List (Name × V)) → n ≡ j → find_item j ((n, v) ∷ l) ≡ some v
  unfolding find_item
  find_item-here j n v l p = ground arith

  pub find_item-there :
      (j n : Name) (v : V) (l : List (Name × V)) → n ≢ j → find_item j ((n, v) ∷ l) ≡ find_item j l
  unfolding find_item
  find_item-there j n v l p = ground arith

  pub find-erase_item :
      (j k : Name) (l : List (Name × V))
      → find_item j (erase_item k l) ≡ ite (name_discrete k j) none (find_item j l)
  unfolding find_item erase_item
  find-erase_item j k [] = ground arith
  find-erase_item j k ((n, v) ∷ l) = ground (arith, find-erase_item j k l)

  pub find-put_item :
      (j k : Name) (v : V) (l : List (Name × V))
      → find_item j (put_item k v l) ≡ ite (name_discrete k j) (some v) (find_item j l)
  unfolding find_item put_item
  find-put_item j k v l = ground (arith, find-erase_item j k l)

  ite-Unique :
      {P : Type 0} (d : Dec P) (x y : List (Name × V)) → Unique x → Unique y → Unique (ite d x y)
  ite-Unique (yes p) x y h k = h
  ite-Unique (no p) x y h k = k

  pub erase_item-Unique : (k : Name) (l : List (Name × V)) → Unique l → Unique (erase_item k l)
  unfolding erase_item
  erase_item-Unique k [] u = tt
  erase_item-Unique k ((n, v) ∷ l) (a, u) =
      ite-Unique (name_discrete n k) (erase_item k l) ((n, v) ∷ erase_item k l)
        (erase_item-Unique k l u) (ground (arith, find-erase_item n k l), erase_item-Unique k l u)

  pub put_item-Unique :
      (k : Name) (v : V) (l : List (Name × V)) → Unique l → Unique (put_item k v l)
  unfolding put_item
  put_item-Unique k v l u = (ground (arith, find-erase_item k k l), erase_item-Unique k l u)

  pub emplace_item-Unique :
      (k : Name) (v : V) (l : List (Name × V)) → Unique l → Unique (emplace_item k v l)
  unfolding emplace_item
  emplace_item-Unique k v l u = go (find_item k l) refl
    where
      go : (o : Option V) → find_item k l ≡ o → Unique (emplaced k v l o)
      go none e = (e, u)
      go (some w) e = u
