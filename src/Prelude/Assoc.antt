-- ===== src/Prelude/Assoc.antt =====
-- `std::collections::HashMap` with text keys, as a list of entries. A new entry
-- stands in front, and what the map had under its key is erased.
use Prim.Native.String.{String}
use mathlib.Core.Path.{◌≡◌}
use mathlib.Core.Option.{Option, none, some}
use mathlib.Core.List.{List, [], ◌∷◌}
use native.Mathlib.Omega.{arith}
use text.Mathlib.Text.{◌==◌ as str_eq}
use text.Mathlib.TextEquality.{eq_iff}
use prismproxy.Prelude.Tests.{if◌then◌else◌}

module _ {ℓ} {Entry : Type ℓ} where
  unfoldable pub lookup : String → List (String × Entry) → Option Entry
  lookup key [] = none
  lookup key (entry ∷ entries) = if str_eq key entry.0 then some entry.1 else lookup key entries

  unfoldable pub erase : String → List (String × Entry) → List (String × Entry)
  erase key [] = []
  erase key (entry ∷ entries) =
      let rest = erase key entries in if str_eq key entry.0 then rest else entry ∷ rest

  unfoldable pub insert : String → Entry → List (String × Entry) → List (String × Entry)
  unfolding erase
  insert key value entries = (key, value) ∷ erase key entries

  pub lookup-erase :
      (key other : String) (entries : List (String × Entry))
      → lookup other (erase key entries) ≡ (if str_eq other key then none else lookup other entries)
  unfolding lookup erase
  lookup-erase key other [] = ground arith
  lookup-erase key other (entry ∷ entries) = ground (
    arith,
    lookup-erase key other entries,
    eq_iff other key,
    eq_iff key entry.0,
    eq_iff other entry.0,
  )

  pub lookup-insert :
      (key other : String) (value : Entry) (entries : List (String × Entry))
      → lookup other (insert key value entries)
        ≡ (if str_eq key other then some value else lookup other entries)
  unfolding lookup insert
  lookup-insert key other value entries =
      ground (arith, lookup-erase key other entries, eq_iff other key, eq_iff key other)
