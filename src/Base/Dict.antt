-- ===== src/Base/Dict.antt =====
-- Go's maps with string keys: finite, at most one value to a key. The order of the entries means
-- nothing: code that iterates over a map is handed a permutation of `values`.
mod Assoc
use Assoc.{
  find, erase_key, IsDistinct, entry_values, erase_key-IsDistinct, find-erase_key,
  find-erase_key_self, count_if-erase_key, entry_values_all,
}
pub use Assoc.{tally}
use aviron.Base.Tests.{if◌then◌else◌, is_some}
use aviron.Base.Lists.{length, count_if}
use Prim.Native.Nat.{ℕ, ◌+◌, ◌≤◌}
use Prim.Native.String.{String}
use mathlib.Core.Path.{◌≡◌, refl}
use mathlib.Core.Bool.{Bool}
use mathlib.Core.Option.{Option, none, some}
use mathlib.Core.List.{List, [], ◌∷◌, Mem}
use native.Mathlib.Omega.{arith}
use text.Mathlib.Text.{◌==◌}

pub record Dict {ℓ} (V : Type ℓ) : Type ℓ where
  items : List (String × V)
  distinct : IsDistinct items

module _ {ℓ} {V : Type ℓ} where
  unfoldable pub empty : Dict V
  empty = record { items = []; distinct = tt }

  -- m[name], or nil
  unfoldable pub get : Dict V → String → Option V
  unfolding find
  get m name = find m.items name

  -- _, ok := m[name]
  unfoldable pub has : Dict V → String → Bool
  unfolding get
  has m name = is_some (get m name)

  -- delete(m, name)
  unfoldable pub delete : Dict V → String → Dict V
  unfolding erase_key
  delete m name = record {
    items = erase_key m.items name;
    distinct = erase_key-IsDistinct m.items name m.distinct;
  }

  -- m[name] = v
  unfoldable pub store : Dict V → String → V → Dict V
  unfolding erase_key
  store m name v = record {
    items = (name, v) ∷ erase_key m.items name;
    distinct = (find-erase_key_self m.items name, erase_key-IsDistinct m.items name m.distinct);
  }

  -- Every value, each once.
  unfoldable pub values : Dict V → List V
  values m = entry_values m.items

  -- Every key with its value, each once.
  unfoldable pub entries : Dict V → List (String × V)
  entries m = m.items

  -- len(m)
  unfoldable pub size : Dict V → ℕ
  unfolding values
  size m = length (values m)

  pub get-delete :
      (m : Dict V) (gone name : String)
      → get (delete m gone) name ≡ (if gone == name then none else get m name)
  unfolding get delete
  get-delete m gone name = find-erase_key m.items gone name

  pub get-store :
      (m : Dict V) (key name : String) (v : V)
      → get (store m key v) name ≡ (if key == name then some v else get m name)
  unfolding get store find
  get-store m key name v = ground (arith, find-erase_key m.items key name)

  pub values-store :
      (m : Dict V) (key : String) (v : V) → values (store m key v) ≡ v ∷ values (delete m key)
  unfolding values store delete
  values-store m key v = refl

  pub count_if-delete :
      (f : V → Bool) (m : Dict V) (key : String)
      → count_if f (values (delete m key)) + tally f (get m key) ≤ count_if f (values m)
  unfolding values delete get
  count_if-delete f m key = count_if-erase_key f m.items key

  pub count_if-store :
      (f : V → Bool) (m : Dict V) (key : String) (v : V)
      → count_if f (values (store m key v)) + tally f (get m key)
        ≤ count_if f (values m) + tally f (some v)
  count_if-store f m key v = ground (arith, values-store m key v, count_if-delete f m key)

  -- What holds of every value found by its key holds of every value.
  pub values_all {κ} :
      {P : V → Type κ} (prop : (v : V) → IsProp (P v)) (m : Dict V)
      → ((key : String) (v : V) → get m key ≡ some v → P v)
      → (v : V) → Mem v (values m)
      → P v
  unfolding values get
  values_all prop m h v i = entry_values_all prop m.items m.distinct h v i

module _ {ℓ} {V : Type ℓ} where
  pub get-empty : (name : String) → get (empty {V = V}) name ≡ none
  unfolding get empty
  get-empty name = refl

  pub values-empty : values (empty {V = V}) ≡ []
  unfolding values empty
  values-empty = refl
