-- ===== src/Base/Dict.antt =====
-- Go maps with string keys, as association lists.
use Prim.Native.String.{String}
use mathlib.Core.Path.{◌≡◌, refl}
use mathlib.Core.Logic.{◌≢◌}
use mathlib.Core.List.{List, [], ◌∷◌}
use mathlib.Core.Option.{Option, none, some}
use native.Mathlib.Omega.{arith}
use text.Mathlib.Text.{◌==◌ as str_eq}
use text.Mathlib.TextEquality.{eq_iff}
use ratelimiter.Base.Tests.{if◌then◌else◌}

module _ {ℓ} {Value : Type ℓ} where
  -- `value, ok := table[key]`.
  unfoldable pub lookup : String → List (String × Value) → Option Value
  lookup key [] = none
  lookup key ((name, value) ∷ rest) = if str_eq name key then some value else lookup key rest

  -- `table[key] = value`: in place of the old entry, or as a new one at the end.
  unfoldable pub insert : String → Value → List (String × Value) → List (String × Value)
  insert key value [] = (key, value) ∷ []
  insert key value ((name, old) ∷ rest) =
      let kept = (name, old) ∷ insert key value rest in
      if str_eq name key then (key, value) ∷ rest else kept

  -- Reading after writing, at any two keys.
  pub lookup-insert :
      (written read : String) (value : Value) (table : List (String × Value))
      → lookup read (insert written value table)
        ≡ (if str_eq written read then some value else lookup read table)
  unfolding lookup insert
  lookup-insert written read value [] = refl
  lookup-insert written read value ((name, old) ∷ rest) =
      let ih = lookup-insert written read value rest in
      ground (arith, ih, eq_iff written read, eq_iff name written, eq_iff name read)

  pub lookup-insert_self :
      (key : String) (value : Value) (table : List (String × Value))
      → lookup key (insert key value table) ≡ some value
  lookup-insert_self key value table =
      ground (arith, lookup-insert key key value table, eq_iff key key)

  pub lookup-insert_ne :
      (written read : String) (value : Value) (table : List (String × Value))
      → written ≢ read
      → lookup read (insert written value table) ≡ lookup read table
  lookup-insert_ne written read value table apart =
      ground (arith, lookup-insert written read value table, eq_iff written read)
