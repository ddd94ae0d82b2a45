-- ===== src/Base/Tables.antt =====
-- A Go map with text keys, as an association list: a missing key is `none`.
use Prim.Native.String.{String}
use mathlib.Core.Path.{◌≡◌, refl}
use mathlib.Core.Bool.{false}
use mathlib.Core.Option.{Option, none, some}
use mathlib.Core.List.{List, [], ◌∷◌}
use native.Mathlib.Omega.{arith}
use text.Mathlib.Text.{◌==◌}
use text.Mathlib.TextEquality.{eq_iff}
use kopilot.Base.Tests.{if◌then◌else◌}

abbrev pub Table {ℓ} : Type ℓ → Type ℓ
Table V = List (String × V)

module _ {ℓ} {V : Type ℓ} where
  -- `m[key]`, and `m[key] = new`, which keeps the place of a key that is there.
  unfoldable pub lookup : String → Table V → Option V
  lookup key [] = none
  lookup key ((first, x) ∷ table) =
      let later = lookup key table in if first == key then some x else later

  unfoldable pub insert : String → V → Table V → Table V
  insert key new [] = (key, new) ∷ []
  insert key new ((first, old) ∷ table) =
      let later = insert key new table in
      if first == key then (key, new) ∷ table else (first, old) ∷ later

  pub lookup-insert :
      (set asked : String) (new : V) (table : Table V)
      → lookup asked (insert set new table)
        ≡ (if set == asked then some new else lookup asked table)
  unfolding lookup insert
  lookup-insert set asked new [] = refl
  lookup-insert set asked new ((first, old) ∷ table) =
      let below = lookup-insert set asked new table in
      ground (arith, eq_iff first asked, eq_iff first set, eq_iff set asked, below)

  pub insert-insert :
      (key : String) (new old : V) (table : Table V)
      → insert key new (insert key old table) ≡ insert key new table
  unfolding insert
  insert-insert key new old [] = ground (arith, eq_iff key key)
  insert-insert key new old ((first, x) ∷ table) =
      ground (arith, eq_iff first key, eq_iff key key, insert-insert key new old table)

pub text_eq-false : (s t : String) → ¬ (s ≡ t) → (s == t) ≡ false
text_eq-false s t h = ground (arith, eq_iff s t)
