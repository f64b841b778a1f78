-- ===== src/Dict.antt =====
-- A Python dictionary in the order of insertion: writing to a key that is there keeps its place.
use ariesmesh.Prelude.{String, Option, none, some, List, [], ◌∷◌, if◌then◌else◌, str_eq}

module _ {V : Type 0} where
  unfoldable pub lookup : String → List (String × V) → Option V
  lookup key [] = none
  lookup key ((name, found) ∷ rest) =
      let later = lookup key rest in if str_eq name key then some found else later

  unfoldable pub insert : String → V → List (String × V) → List (String × V)
  insert key new [] = (key, new) ∷ []
  insert key new ((name, old) ∷ rest) =
      let later = insert key new rest in
      if str_eq name key then (name, new) ∷ rest else (name, old) ∷ later

  -- `d.pop(k, None)`
  unfoldable pub remove : String → List (String × V) → List (String × V)
  remove key [] = []
  remove key ((name, old) ∷ rest) =
      let later = remove key rest in if str_eq name key then rest else (name, old) ∷ later
