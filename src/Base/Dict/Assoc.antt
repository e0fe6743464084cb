-- ===== src/Base/Dict/Assoc.antt =====
-- The entries of a map: a list of keys with their values, each key once.
use aviron.Base.Tests.{if◌then◌else◌}
use aviron.Base.Lists.{count_if}
use Prim.Native.Nat.{ℕ, ◌+◌, ◌≤◌}
use Prim.Native.String.{String}
use mathlib.Core.Path.{◌≡◌}
use mathlib.Core.Bool.{Bool}
use mathlib.Core.Logic.Or
use mathlib.Core.Option.{Option, none, some}
use mathlib.Core.List.{List, [], ◌∷◌, Mem, mem-cons, not-mem-nil}
use native.Mathlib.Omega.{arith}
use text.Mathlib.Text.{◌==◌}
use text.Mathlib.TextEquality.{eq_iff}

-- 1 for a value that passes the test.
abbrev pub tally {ℓ} : {V : Type ℓ} → (V → Bool) → Option V → ℕ
tally f none = 0
tally f (some v) = if f v then 1 else 0

module _ {ℓ} {V : Type ℓ} where
  unfoldable pub find : List (String × V) → String → Option V
  find [] name = none
  find ((key, x) ∷ rest) name = if key == name then some x else find rest name

  unfoldable pub erase_key : List (String × V) → String → List (String × V)
  erase_key [] name = []
  erase_key ((key, x) ∷ rest) name =
      let kept = erase_key rest name in if key == name then kept else (key, x) ∷ kept

  abbrev pub IsDistinct : List (String × V) → Type ℓ
  IsDistinct [] = Unit
  IsDistinct ((key, x) ∷ rest) = (find rest key ≡ none) × IsDistinct rest

  abbrev pub entry_values : List (String × V) → List V
  entry_values [] = []
  entry_values ((key, x) ∷ rest) = x ∷ entry_values rest

  pub find-erase_key :
      (es : List (String × V)) (gone name : String)
      → find (erase_key es gone) name ≡ (if gone == name then none else find es name)
  unfolding find erase_key
  find-erase_key [] gone name = ground arith
  find-erase_key ((key, x) ∷ rest) gone name =
      let ih = find-erase_key rest gone name in
      ground (arith, eq_iff gone name, eq_iff key name, eq_iff key gone, ih)

  pub find-erase_key_self :
      (es : List (String × V)) (name : String) → find (erase_key es name) name ≡ none
  find-erase_key_self es name = ground (arith, find-erase_key es name name, eq_iff name name)

  pub erase_key-IsDistinct :
      (es : List (String × V)) (name : String) → IsDistinct es → IsDistinct (erase_key es name)
  unfolding erase_key
  erase_key-IsDistinct [] name d = tt
  erase_key-IsDistinct ((key, x) ∷ rest) name d =
      ground (arith, erase_key-IsDistinct rest name d.1, find-erase_key rest name key)

  -- Erasing a key takes its value out of every count.
  pub count_if-erase_key :
      (f : V → Bool) (es : List (String × V)) (name : String)
      → count_if f (entry_values (erase_key es name)) + tally f (find es name)
        ≤ count_if f (entry_values es)
  unfolding find erase_key
  count_if-erase_key f [] name = omega arith
  count_if-erase_key f ((key, x) ∷ rest) name = ground (arith, count_if-erase_key f rest name)

  -- What holds of every value found by its key holds of every value.
  pub entry_values_all {κ} :
      {P : V → Type κ} (prop : (v : V) → IsProp (P v)) (es : List (String × V))
      → IsDistinct es
      → ((name : String) (v : V) → find es name ≡ some v → P v)
      → (v : V) → Mem v (entry_values es)
      → P v
  unfolding find
  entry_values_all prop [] d h v m = absurd (not-mem-nil m)
  entry_values_all {P} prop ((key, x) ∷ rest) d h v m =
      Or.elim (prop v) (mem-cons.0 m) (λ e. same e (h key x (ground (arith, eq_iff key key))))
        (λ m'. entry_values_all prop rest d.1 (λ j y e. h j y (ground (arith, eq_iff key j))) v m')
    where
      same : v ≡ x → P x → P v
      same e p = rw e p
